-- ===== src/Groups.antt =====
-- `class Group` of rtslib/target.py: a group of objects of configFS that is managed as one.
pub mod NodeAcls
pub mod MappedLuns
pub mod Chap
pub mod Joining
pub mod Agreement
pub mod Lookups
pub mod Tagged
mod Tests
use rtslib_fb.Prelude.{Bool, true, false, Option, none, some, List, Text, index_error}
use rtslib_fb.Cfs.{FsPath, Kernel, M, pure, raise, ◌>>=◌, ◌>>◌}
use rtslib_fb.Node

-- What `members_func` gives: the loop over the members, and the first of them, if any.
pub record Members (A : Type 0) : Type 0 where
  pub each : (A → M (Unit {0})) → M (Unit {0})
  pub next : M (Option A)

module _ ⦃k : Kernel⦄ {A : Type 0} (g : Members A) where
  -- `_get_first_member`
  unfoldable pub get_first_member : M A
  get_first_member = do found ← g.next; elim found [ none ↦ raise index_error | some a ↦ pure a ]

  -- `_set_prop`, with `setattr(mem, prop, value)` as an argument.
  unfoldable pub set_prop : (A → M (Unit {0})) → M (Unit {0})
  set_prop assign = g.each assign

  -- `exists`
  unfoldable pub exists : M Bool
  exists = do found ← g.next; pure (elim found [ none ↦ false | some a ↦ true ])

  -- `delete`, with the members' `delete` as an argument.
  unfoldable pub delete : (A → M (Unit {0})) → M (Unit {0})
  delete delete_member = g.each delete_member

-- `_get_prop`, with `getattr(member, prop)` as an argument.
unfoldable pub get_prop : ⦃k : Kernel⦄ {A B : Type 0} → Members A → (A → M B) → M B
unfolding get_first_member
get_prop g read = do a ← get_first_member g; read a

module _ ⦃k : Kernel⦄ {A : Type 0} (g : Members A) (path : A → FsPath) where
  unfoldable pub list_attributes : Option Bool → Option Bool → M (List Text)
  unfolding get_prop
  list_attributes writable readable =
      get_prop g (λ a. Node.list_attributes (path a) writable readable)

  unfoldable pub list_parameters : Option Bool → Option Bool → M (List Text)
  unfolding get_prop
  list_parameters writable readable =
      get_prop g (λ a. Node.list_parameters (path a) writable readable)

  unfoldable pub set_attribute : Text → Text → M (Unit {0})
  set_attribute attribute value = g.each (λ a. Node.set_attribute (path a) attribute value)

  unfoldable pub set_parameter : Text → Text → M (Unit {0})
  set_parameter parameter value = g.each (λ a. Node.set_parameter (path a) parameter value)

  unfoldable pub get_attribute : Text → M Text
  unfolding get_prop
  get_attribute attribute = get_prop g (λ a. Node.get_attribute (path a) attribute)

  unfoldable pub get_parameter : Text → M Text
  unfolding get_prop
  get_parameter parameter = get_prop g (λ a. Node.get_parameter (path a) parameter)
