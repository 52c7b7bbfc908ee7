-- ===== src/Sysusers/Data/Serde.antt =====
-- Serialization and deserialization of entries, over a deserializer of the six fields.
use libsystemd_rs.Base.{
  false, List, [], ◌∷◌, ◌++◌, Option, none, some, Str, codes, equal, err, ◌≡◌, refl, arith, inl,
  inr, Result-cases,
}
use libsystemd_rs.Decimal
use libsystemd_rs.Error.{SdError}
use libsystemd_rs.Sysusers.Data.Read.{
  IsCanonical, AllAutomatic, range_try_from_lem, member_try_from_lem, group_try_from_lem,
  user_try_from_lem,
}
use libsystemd_rs.Sysusers.Data.{
  SysusersData, check_kind, range_try_from, member_try_from, group_try_from, user_try_from,
  entry_from_data, serialize,
}
use libsystemd_rs.Sysusers.Entry.{
  SysusersEntry, add_range, add_user_to_group, create_group, create_user_and_group,
}
use libsystemd_rs.Sysusers.Id.{display_id, display_gid}

-- The raw data under the keys of their `serde(rename)` attributes.
abbrev pub fields_of : SysusersData → List (Str × Option Str)
fields_of d =
    (codes "Type", some d.kind)
    ∷ (codes "Name", some d.name)
    ∷ (codes "ID", some d.id)
    ∷ (codes "GECOS", d.gecos)
    ∷ (codes "Home directory", d.home_dir)
    ∷ (codes "Shell", d.shell)
    ∷ []

-- The raw data that stand in the fields of a serialized entry.
abbrev pub data_of : SysusersEntry → SysusersData
data_of (add_range v) = record {
  kind = codes "r";
  name = codes "-";
  id = Decimal.display v.from ++ b'-' ∷ Decimal.display v.to;
  gecos = none;
  home_dir = none;
  shell = none;
}
data_of (add_user_to_group v) = record {
  kind = codes "m";
  name = v.username;
  id = v.groupname;
  gecos = none;
  home_dir = none;
  shell = none;
}
data_of (create_group v) = record {
  kind = codes "g";
  name = v.groupname;
  id = display_gid v.gid;
  gecos = none;
  home_dir = none;
  shell = none;
}
data_of (create_user_and_group v) = record {
  kind = codes "u";
  name = v.name;
  id = display_id v.id;
  gecos = some v.gecos;
  home_dir = v.home_dir;
  shell = v.shell;
}

serialize-data_of : (e : SysusersEntry) → (serialize e).fields ≡ fields_of (data_of e)
unfolding serialize
serialize-data_of (add_range v) = refl
serialize-data_of (add_user_to_group v) = refl
serialize-data_of (create_group v) = refl
serialize-data_of (create_user_and_group v) = refl

wrong_kind :
    (letter : Str) (d : SysusersData)
    → equal d.kind letter ≡ false
    → (e : SdError) × (check_kind letter d ≡ err e)
unfolding check_kind
wrong_kind letter d h = elim (Result-cases (check_kind letter d)) [
  | inl bad ↦ bad
  | inr (u, good) ↦ absurd (ground arith)
]

-- A conversion to another type than the "Type" field names is refused.
module _ (d : SysusersData) where
  pub not_range : equal d.kind (codes "r") ≡ false → (e : SdError) × (range_try_from d ≡ err e)
  unfolding range_try_from
  not_range h = let (e, bad) = wrong_kind (codes "r") d h in (e, rw bad)

  pub not_member : equal d.kind (codes "m") ≡ false → (e : SdError) × (member_try_from d ≡ err e)
  unfolding member_try_from
  not_member h = let (e, bad) = wrong_kind (codes "m") d h in (e, rw bad)

  pub not_group : equal d.kind (codes "g") ≡ false → (e : SdError) × (group_try_from d ≡ err e)
  unfolding group_try_from
  not_group h = let (e, bad) = wrong_kind (codes "g") d h in (e, rw bad)

  pub not_user : equal d.kind (codes "u") ≡ false → (e : SdError) × (user_try_from d ≡ err e)
  unfolding user_try_from
  not_user h = let (e, bad) = wrong_kind (codes "u") d h in (e, rw bad)

none_automatic :
    {d : SysusersData} → d.gecos ≡ none → d.home_dir ≡ none → d.shell ≡ none → AllAutomatic d
none_automatic g h s = record { gecos = inl g; home_dir = inl h; shell = inl s }

-- The untagged enum finds the variant that the "Type" field names, and the entry in it.
entry_from_data_lem : (e : SysusersEntry) → IsCanonical e → entry_from_data (data_of e) ≡ some e
unfolding entry_from_data equal
entry_from_data_lem (add_range v) c =
    rw (range_try_from_lem (data_of (add_range v)) v c refl (none_automatic refl refl refl) refl)
entry_from_data_lem (add_user_to_group v) c =
    let d = data_of (add_user_to_group v) in
    rw (
      (not_range d refl).1,
      member_try_from_lem d v c refl (none_automatic refl refl refl) refl refl,
    )
entry_from_data_lem (create_group v) c =
    let d = data_of (create_group v) in
    rw (
      (not_range d refl).1,
      (not_member d refl).1,
      group_try_from_lem d v c refl (none_automatic refl refl refl) refl refl,
    )
entry_from_data_lem (create_user_and_group v) c =
    let d = data_of (create_user_and_group v) in
    rw (
      (not_range d refl).1,
      (not_member d refl).1,
      (not_group d refl).1,
      user_try_from_lem d v c refl refl refl refl refl refl,
    )

-- `deserialize` stands for serde's reading of a `SysusersData`.
module _ (deserialize : List (Str × Option Str) → Option SysusersData) where
  -- `Deserialize` of `SysusersEntry`
  unfoldable pub entry_from_fields : List (Str × Option Str) → Option SysusersEntry
  entry_from_fields fields = elim (deserialize fields) [ none ↦ none | some d ↦ entry_from_data d ]

  -- Let the deserializer read back the six fields that the attributes of `SysusersData` name. Then
  -- deserializing a serialized canonical entry gives the entry back, in its own variant.
  pub entry_from_fields-serialize :
      ((d : SysusersData) → deserialize (fields_of d) ≡ some d)
      → (e : SysusersEntry) → IsCanonical e
      → entry_from_fields (serialize e).fields ≡ some e
  unfolding entry_from_fields
  entry_from_fields-serialize reads_fields e c =
      rw (serialize-data_of e, reads_fields (data_of e), entry_from_fields)
        (entry_from_data_lem e c)
