-- ===== src/Groups/Chap.antt =====
-- The CHAP settings of a group of node ACLs (rtslib/target.py), and the LUN that all of its members map.
use rtslib_fb.Prelude.{ℕ, Option, List, Text, codes, Json}
use rtslib_fb.Cfs.{Kernel, M}
use rtslib_fb.Target.Create.{TpgLun}
use rtslib_fb.Groups.NodeAcls.{NodeAclGroup, get_chap, set_chap}
use rtslib_fb.Groups.MappedLuns.{MappedLunGroup, mapped_lun_group_init}

module _ ⦃k : Kernel⦄ (g : NodeAclGroup) where
  -- The WWN and the value of each member.
  unfoldable pub get_userids : M (List (Text × Option Text))
  unfolding get_chap
  get_userids = get_chap g (codes "userid")

  unfoldable pub get_passwords : M (List (Text × Option Text))
  unfolding get_chap
  get_passwords = get_chap g (codes "password")

  unfoldable pub get_mutual_userids : M (List (Text × Option Text))
  unfolding get_chap
  get_mutual_userids = get_chap g (codes "userid_mutual")

  unfoldable pub get_mutual_passwords : M (List (Text × Option Text))
  unfolding get_chap
  get_mutual_passwords = get_chap g (codes "password_mutual")

  -- For one member, or for all where there is no WWN.
  unfoldable pub set_userids : Text → Option Text → M (Unit {0})
  unfolding set_chap
  set_userids value wwn = set_chap g (codes "userid") value wwn

  unfoldable pub set_passwords : Text → Option Text → M (Unit {0})
  unfolding set_chap
  set_passwords value wwn = set_chap g (codes "password") value wwn

  unfoldable pub set_mutual_userids : Text → Option Text → M (Unit {0})
  unfolding set_chap
  set_mutual_userids value wwn = set_chap g (codes "userid_mutual") value wwn

  unfoldable pub set_mutual_passwords : Text → Option Text → M (Unit {0})
  unfolding set_chap
  set_mutual_passwords value wwn = set_chap g (codes "password_mutual") value wwn

  unfoldable pub mapped_lun_group : ℕ → Option TpgLun → Json → M MappedLunGroup
  unfolding mapped_lun_group_init
  mapped_lun_group i tpg_lun write_protect = mapped_lun_group_init g i tpg_lun write_protect
