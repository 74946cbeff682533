-- ===== src/Auth/Tests.antt =====
-- A CHAP user name that is set and read (rtslib/utils.py).
use rtslib_fb.Prelude.{◌≡◌, refl, ◌≢◌, ◌<◌, true, false, some, [], ◌∷◌, codes, length, strip, ok}
use rtslib_fb.Cfs.{FsPath, Fs, Entry, dir, file, World}
use rtslib_fb.Cfs.Memory.{memory, world, content-write_at, is_dir_in-write_at}
use rtslib_fb.Node.{check_self}
use rtslib_fb.Auth.{null_text, get_auth_attr, set_auth_attr}
use rtslib_fb.Cfs.Laws.{Stores}
use rtslib_fb.Auth.RoundTrip.{get-set_auth_attr}

abbrev acl : FsPath
acl = codes "acl" ∷ []

abbrev userid : FsPath
userid = codes "userid" ∷ codes "auth" ∷ []

abbrev before : World
before = world (
    (acl, dir)
    ∷ (codes "userid" ∷ codes "auth" ∷ codes "acl" ∷ [], file true true (codes "NULL\n"))
    ∷ [])

abbrev behind : World
behind = world (
    (acl, dir)
    ∷ (codes "userid" ∷ codes "auth" ∷ codes "acl" ∷ [], file true true (codes "alice"))
    ∷ [])

userid-Stores : Stores memory acl userid
userid-Stores = record {
  stores = content-write_at (codes "userid" ∷ codes "auth" ∷ codes "acl" ∷ []);
  stays = is_dir_in-write_at (codes "userid" ∷ codes "auth" ∷ codes "acl" ∷ []) acl;
}

was_set :
    set_auth_attr (check_self acl) acl (codes " alice\n") userid false before ≡ (ok tt, behind)
unfolding set_auth_attr check_self strip rtslib_fb.Cfs.fwrite
was_set = refl

get-set_auth_attr_example :
    (get_auth_attr (check_self acl) acl userid false behind
      ≡ (ok (some (strip (codes " alice\n"))), behind))
    × (strip (codes " alice\n") ≢ null_text)
    × (length (strip (codes " alice\n")) < 256)
get-set_auth_attr_example =
    get-set_auth_attr acl userid (codes " alice\n") before behind userid-Stores was_set
