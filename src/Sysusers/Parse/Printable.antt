-- ===== src/Sysusers/Parse/Printable.antt =====
-- The entries whose print can be parsed, and facts on their fields.
use libsystemd_rs.Base.{
  ℕ, true, false, [], ◌∷◌, ◌++◌, Option, none, some, is_empty, is_whitespace, starts_with, trim_end,
  All-map, All-append, Str, ◌≡◌, refl, arith,
}
use libsystemd_rs.Decimal
use libsystemd_rs.Decimal.Accept.{IsDigit}
use libsystemd_rs.Decimal.RoundTrip.{display-IsDigit, display-not_empty}
use libsystemd_rs.Sysusers.Id.RoundTrip.{IsCanonicalId, IsCanonicalGid}
use libsystemd_rs.Sysusers.Entry.{
  SysusersEntry, add_range, add_user_to_group, create_group, create_user_and_group,
}
use libsystemd_rs.Sysusers.Format.{path_or_dash}
use libsystemd_rs.Sysusers.Id.{
  FilePath, IdOrPath, id, uid_gid, uid_groupname, GidOrPath, gid, display_id, display_gid,
}
use libsystemd_rs.Sysusers.Name.Grammar.{IsName, IsNameChar}
use libsystemd_rs.Sysusers.Parse.Line.{IsField, IsQuotable}
use libsystemd_rs.Sysusers.Parse.{is_field_char}

-- A path that is printed into a field of its own.
abbrev pub IsPathField : FilePath → Type 0
IsPathField p = IsField p × (starts_with b'"' p ≡ false)

abbrev pub IsOptionField : Option FilePath → Type 0
IsOptionField none = Unit
IsOptionField (some p) = IsPathField p

-- The text does not end in white space, in Unicode's sense.
abbrev pub EndsPlain : Str → Type 0
EndsPlain s = (trim_end is_whitespace s ≡ s) × (is_empty s ≡ false)

abbrev pub IdFits : IdOrPath → Type 0
IdFits (IdOrPath.path p) = IsField p
IdFits _ = Unit

abbrev pub GidFits : GidOrPath → Type 0
GidFits (GidOrPath.path p) = IsField p
GidFits _ = Unit

-- The free texts fit their fields: a path holds no ASCII white space, GECOS is not empty and holds no
-- quote, and the last field does not end in white space.
abbrev pub Fits : SysusersEntry → Type 0
Fits (add_range v) = Unit
Fits (add_user_to_group v) = Unit
Fits (create_group v) = GidFits v.gid
Fits (create_user_and_group v) =
    IdFits v.id
    × IsQuotable v.gecos
    × IsOptionField v.home_dir
    × IsOptionField v.shell
    × EndsPlain (path_or_dash v.shell)

-- What a printed entry is read back as: a missing directory or shell becomes the path `-`.
abbrev pub dashed : SysusersEntry → SysusersEntry
dashed (create_user_and_group v) =
    create_user_and_group
      (record v { home_dir = some (path_or_dash v.home_dir); shell = some (path_or_dash v.shell) })
dashed e = e

name_char-field : (c : ℕ) → IsNameChar c → is_field_char c ≡ true
name_char-field c h = ground arith

pub IsName-IsField : (s : Str) → IsName s → IsField s
IsName-IsField [] h = absurd h
IsName-IsField (c ∷ s) (h, hs, _) = (refl, (ground arith, All-map s name_char-field hs))

digit-field : (c : ℕ) → IsDigit c → is_field_char c ≡ true
digit-field c h = ground arith

pub display-IsField : (i : ℕ) → IsField (Decimal.display i)
display-IsField i = (display-not_empty i, All-map _ digit-field (display-IsDigit i))

-- Two fields with a character between them that is no white space.
pub joined-IsField :
    (c : ℕ) (s t : Str) → is_field_char c ≡ true → IsField s → IsField t → IsField (s ++ c ∷ t)
joined-IsField c [] t h hs ht = absurd (cc (hs.0))
joined-IsField c (x ∷ s) t h hs ht = (refl, All-append _ (x ∷ s) (c ∷ t) hs.1 (h, ht.1))

pub display_id-IsField : (i : IdOrPath) → IsCanonicalId i → IdFits i → IsField (display_id i)
unfolding display_id
display_id-IsField (id i) c f = display-IsField i
display_id-IsField (uid_gid u g) c f =
    joined-IsField b':' _ _ refl (display-IsField u) (display-IsField g)
display_id-IsField (uid_groupname u g) c f =
    joined-IsField b':' _ g refl (display-IsField u) (IsName-IsField g c.1)
display_id-IsField (IdOrPath.path p) c f = f
display_id-IsField IdOrPath.automatic c f = (refl, (refl, tt))

pub display_gid-IsField : (g : GidOrPath) → IsCanonicalGid g → GidFits g → IsField (display_gid g)
unfolding display_gid
display_gid-IsField (gid g) c f = display-IsField g
display_gid-IsField (GidOrPath.path p) c f = f
display_gid-IsField GidOrPath.automatic c f = (refl, (refl, tt))

pub EndsPlain-cons : (c : ℕ) (s : Str) → EndsPlain s → EndsPlain (c ∷ s)
unfolding trim_end
EndsPlain-cons c s h = ground arith

pub EndsPlain-append : (a s : Str) → EndsPlain s → EndsPlain (a ++ s)
EndsPlain-append [] s h = h
EndsPlain-append (c ∷ a) s h = EndsPlain-cons c (a ++ s) (EndsPlain-append a s h)
