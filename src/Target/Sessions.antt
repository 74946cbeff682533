-- ===== src/Target/Sessions.antt =====
-- `NodeACL._get_session` of rtslib/target.py: what the kernel's text about an initiator's session
-- says. The key `parent_nodeacl` of the dictionary is the object itself and is left out.
use rtslib_fb.Prelude.{
  ℕ, zero, suc, Bool, true, false, Option, none, some, List, [], ◌∷◌, ◌++◌, Text, codes, split,
  words, strip, lines_of, starts_with, drop, length, ℤ, py_int, Exn, Result, ok, err, index_error,
  value_error, key_error, is_os, if◌then◌else◌,
}
use rtslib_fb.Cfs.{Kernel, M, fread}
use rtslib_fb.Target.Objects.{NodeAcl}

pub record Connection : Type 0 where
  pub cid : ℤ
  pub cstate : Text
  pub address : Option Text
  pub transport : Option Text

-- The keys that the lines set; `connections` is absent before a line with the initiator's name.
pub record Session : Type 0 where
  pub connections : Option (List Connection)
  pub alias : Option Text
  pub id : Option ℤ
  pub kind : Option Text
  pub state : Option Text

abbrev pub no_keys : Session
no_keys = record { connections = none; alias = none; id = none; kind = none; state = none }

infixl 5 ◌>>=◌
abbrev ◌>>=◌ : {A B : Type 0} → Result A → (A → Result B) → Result B
ok a >>= f = f a
err e >>= f = err e

-- `xs[n]`
abbrev pub nth : ℕ → List Text → Result Text
nth n [] = err index_error
nth zero (x ∷ xs) = ok x
nth (suc n) (x ∷ xs) = nth n xs

-- `int(s)`
unfoldable pub int_or_error : Text → Result ℤ
unfolding py_int
int_or_error s = elim (py_int s) [ none ↦ err value_error | some n ↦ ok n ]

-- What stands behind the first occurrence of a text, and what stands before it.
unfoldable pub behind : Text → Text → Option Text
behind sep [] = if starts_with sep [] then some [] else none
behind sep (c ∷ s) =
    let rest = behind sep s in
    if starts_with sep (c ∷ s) then some (drop (length sep) (c ∷ s)) else rest

unfoldable pub ahead : Text → Text → Text
ahead sep [] = []
ahead sep (c ∷ s) = let rest = ahead sep s in if starts_with sep (c ∷ s) then [] else c ∷ rest

-- `sep in s`
unfoldable pub holds : Text → Text → Bool
unfolding behind
holds sep s = elim (behind sep s) [ none ↦ false | some rest ↦ true ]

-- `s.split(sep)[1]`
unfoldable pub piece : Text → Text → Result Text
unfolding behind ahead
piece sep s = elim (behind sep s) [ none ↦ err index_error | some rest ↦ ok (ahead sep rest) ]

-- `session['connections']`
unfoldable pub connections_of : Session → Result (List Connection)
connections_of s = elim s.connections [ none ↦ err key_error | some cs ↦ ok cs ]

-- `session['connections'].append(c)`
unfoldable pub append_connection : Connection → Session → Result Session
unfolding connections_of
append_connection c s = do
  cs ← connections_of s
  ok (record s { connections = some (cs ++ c ∷ []) })

-- The last connection with its two keys set.
unfoldable pub set_last : Text → Text → List Connection → Result (List Connection)
set_last a t [] = err index_error
set_last a t (c ∷ []) = ok (record c { address = some a; transport = some t } ∷ [])
set_last a t (c ∷ d ∷ cs) = set_last a t (d ∷ cs) >>= λ rest. ok (c ∷ rest)

unfoldable pub set_address : Text → Session → Result Session
unfolding words connections_of set_last
set_address line s = do
  address ← nth 1 (words line)
  cs ← connections_of s
  transport ← nth 2 (words line)
  done ← set_last address transport cs
  ok (record s { connections = some done })

-- `line.split(":")[1].split()[0]`, the number behind a colon.
unfoldable pub number_behind_colon : Text → Result ℤ
unfolding split words int_or_error
number_behind_colon line = do
  part ← nth 1 (split b':' line)
  word ← nth 0 (words part)
  int_or_error word

-- `line.split("_STATE_")[1].split()[0]`
unfoldable pub state_word : Text → Result Text
unfolding piece words
state_word line = do part ← piece (codes "_STATE_") line; nth 0 (words part)

-- One line.
unfoldable pub read_line : Text → Session → Result Session
unfolding number_behind_colon state_word append_connection set_address holds split strip
read_line line s =
    if starts_with (codes "InitiatorName:") line
    then ok (record s { connections = some [] })
    else if starts_with (codes "InitiatorAlias:") line
    then (do part ← nth 1 (split b':' line); ok (record s { alias = some (strip part) }))
    else if starts_with (codes "LIO Session ID:") line
    then (do
      n ← number_behind_colon line
      part ← piece (codes "SessionType:") line
      word ← nth 0 (words part)
      ok (record s { id = some n; kind = some (strip word) }))
    else if holds (codes "TARG_SESS_STATE_") line
    then (do state ← state_word line; ok (record s { state = some state }))
    else if holds (codes "TARG_CONN_STATE_") line
    then (do
      n ← number_behind_colon line
      state ← state_word line
      append_connection (record { cid = n; cstate = state; address = none; transport = none }) s)
    else if holds (codes "Address") line
    then set_address line s
    else ok s

unfoldable pub read_lines : List Text → Session → Result Session
unfolding read_line
read_lines [] s = ok s
read_lines (line ∷ lines) s = read_line line s >>= read_lines lines

-- No line is an IndexError; "No active" is None.
unfoldable pub session_of : List Text → Result (Option Session)
unfolding read_lines
session_of [] = err index_error
session_of (line ∷ lines) =
    if starts_with (codes "No active") line
    then ok none
    else read_lines (line ∷ lines) no_keys >>= λ s. ok (some s)

module _ ⦃k : Kernel⦄ where
  abbrev none_if_os : Exn → Result (Option Session)
  none_if_os e = if is_os e then ok none else err e

  unfoldable pub get_session : NodeAcl → M (Option Session)
  unfolding session_of lines_of
  get_session acl w =
      let (r, w') = fread (codes "info" ∷ acl.path) w in
      (elim r [ err e ↦ none_if_os e | ok info ↦ session_of (lines_of info) ], w')
