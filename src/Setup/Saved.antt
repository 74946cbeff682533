-- ===== src/Setup/Saved.antt =====
-- The dictionaries of a saved configuration that the `setup` methods of rtslib/target.py take.
use rtslib_fb.Prelude.{ℤ, Bool, Option, List, Text, Json}

pub record SavedLun : Type 0 where
  pub index : Option ℤ
  pub storage_object : Option Text
  pub alias : Option Text
  pub alua_tg_pt_gp_name : Option Json

pub record SavedPortal : Type 0 where
  pub ip_address : Option Text
  pub port : Option Json
  pub iser : Bool
  pub offload : Bool

pub record SavedMappedLun : Type 0 where
  pub tpg_lun : Option ℤ
  pub index : Option ℤ
  pub write_protect : Json
  pub alias : Option Text

-- The properties that `setattr` reaches: the four CHAP attributes, a node's tag and its queue depth,
-- a property without a setter, and any other name, which Python sets on the object alone.
pub data Item : Type 0 where
  chap_userid chap_password chap_mutual_userid chap_mutual_password tag tcq_depth : Item
  read_only other : Item

pub record SavedAcl : Type 0 where
  pub node_wwn : Option Text
  pub attributes : List (Text × Json)
  pub mapped_luns : List SavedMappedLun
  pub items : List (Item × Json)

pub record SavedTpg : Type 0 where
  pub tag : Option Json
  pub attributes : List (Text × Json)
  pub parameters : List (Text × Json)
  pub luns : List SavedLun
  pub portals : List SavedPortal
  pub node_acls : List SavedAcl
  pub enable : Option Bool
  pub items : List (Item × Json)

pub record SavedTarget : Type 0 where
  pub wwn : Option Text
  pub fabric : Option Text
  pub tpgs : List SavedTpg
