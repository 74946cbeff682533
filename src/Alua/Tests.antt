-- ===== src/Alua/Tests.antt =====
-- A property of an ALUA group that is set and read (rtslib/alua.py).
use rtslib_fb.Prelude.{
  ◌≡◌, refl, Bool, true, false, List, [], ◌∷◌, Text, codes, ℤ, pos, Json, Result, ok, err,
  rtslib_error,
}
use rtslib_fb.Cfs.{FsPath, Entry, dir, file, World}
use rtslib_fb.Cfs.Memory.{memory, world, content-write_at, is_dir_in-write_at}
use rtslib_fb.Cfs.Laws.{Stores}
use rtslib_fb.Alua.{trans_delay_msecs, get_param, set_param}
use rtslib_fb.Alua.Groups.{get-set_param}
use rtslib_fb.Prelude.{List, map}
use rtslib_fb.Alua.Members.{Member, members_of}
use rtslib_fb.Alua.Printed.{member_line, AllPlain, members_of-member_line}

abbrev group : FsPath
group = codes "ao" ∷ codes "alua" ∷ []

abbrev delay : FsPath
delay = codes "trans_delay_msecs" ∷ group

abbrev before : World
before = world ((group, dir) ∷ (delay, file true true (codes "0\n")) ∷ [])

abbrev behind : World
behind = world ((group, dir) ∷ (delay, file true true (codes "250")) ∷ [])

delay-Stores : Stores memory group (codes "trans_delay_msecs" ∷ [])
delay-Stores = record { stores = content-write_at delay; stays = is_dir_in-write_at delay group }

was_set : set_param group trans_delay_msecs (Json.number (pos 250)) before ≡ (ok tt, behind)
unfolding set_param rtslib_fb.Node.check_self rtslib_fb.Cfs.fwrite rtslib_fb.Prelude.int_text
    rtslib_fb.Prelude.decimal
was_set = refl

get-set_param_example : get_param group trans_delay_msecs behind ≡ (ok (pos 250), behind)
get-set_param_example =
    get-set_param group trans_delay_msecs (pos 250) before behind delay-Stores (λ e. cc) (λ e. cc)
      was_set

abbrev members : List Member
members =
    record {
      driver = codes "iSCSI";
      target = codes "iqn.2003-01.org.example:a";
      tpgt = pos 1;
      lun = pos 0;
    }
    ∷ record {
      driver = codes "iSCSI";
      target = codes "iqn.2003-01.org.example:a";
      tpgt = pos 1;
      lun = pos 12;
    }
    ∷ []

members-AllPlain : AllPlain members
members-AllPlain = ((refl, refl), ((refl, refl), tt))

members_of-member_line_example : members_of (map member_line members) ≡ ok members
members_of-member_line_example = members_of-member_line members members-AllPlain
