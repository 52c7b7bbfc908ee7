-- ===== src/Sysusers/Parse/Line.antt =====
-- How `parse_line` reads a line of six fields with a space between two.
use libsystemd_rs.Base.{
  ℕ, true, false, [], ◌∷◌, ◌++◌, some, ◌==◌, is_empty, Str, codes, ok, ◌≡◌, refl, arith,
  append_assoc, append-nil,
}
use libsystemd_rs.Sysusers.Nom.{Nom, NomLaws, Stops, Passes, Fails, is_multispace}
use libsystemd_rs.Sysusers.Parse.{
  is_field_char, is_not_quote, parse_quoted_string, parse_plain_string, parse_opt_string,
  parse_line, parse_to_sysusers_data,
}

-- The text of a plain field.
abbrev pub IsField : Str → Type 0
IsField s = (is_empty s ≡ false) × Passes is_field_char s

-- The text between the quotes of a quoted field.
abbrev pub IsQuotable : Str → Type 0
IsQuotable s = (is_empty s ≡ false) × Passes is_not_quote s

field_char-Stops : (c : ℕ) → is_field_char c ≡ true → is_multispace c ≡ false
field_char-Stops c h = ground arith

-- A field, with anything behind it, stops white space.
field-Stops : (s rest : Str) → IsField s → Stops is_multispace (s ++ rest)
field-Stops [] rest h = absurd (cc (h.0))
field-Stops (c ∷ s) rest h = field_char-Stops c h.1.0

abbrev IsSpaceBehind : Str → Type 0
IsSpaceBehind = Stops is_field_char

module _ (n : Nom) (laws : NomLaws n) where
  open laws use {
    anychar_some, multispace0_some, multispace1_some, take_while1_some, take_while1_none, tag_some,
  }

  -- One space before a field.
  one_space1 :
      (rest : Str) → Stops is_multispace rest → n.multispace1 (b' ' ∷ rest) ≡ ok (rest, b' ' ∷ [])
  one_space1 rest h = multispace1_some (b' ' ∷ []) rest refl (refl, tt) h

  one_space0 :
      (rest : Str) → Stops is_multispace rest → n.multispace0 (b' ' ∷ rest) ≡ ok (rest, b' ' ∷ [])
  one_space0 rest h = multispace0_some (b' ' ∷ []) rest (refl, tt) h

  no_space0 : n.multispace0 [] ≡ ok ([], [])
  no_space0 = multispace0_some [] [] tt tt

  -- A text that reads as an optional field, whatever stands behind it.
  pub record ReadsAs (text value : Str) : Type 0 where
    pub reads :
        (rest : Str)
        → IsSpaceBehind rest
        → parse_opt_string n (text ++ rest) ≡ ok (rest, some value)
    pub stops : (rest : Str) → Stops is_multispace (text ++ rest)

  pub plain-ReadsAs :
      (c : ℕ) (s : Str) → (c == b'"') ≡ false → IsField (c ∷ s) → ReadsAs (c ∷ s) (c ∷ s)
  plain-ReadsAs c s no_quote field = record {
    reads = λ rest behind.
        unfold parse_opt_string parse_plain_string in
        rw (no_quote, take_while1_some is_field_char (c ∷ s) rest field.0 field.1 behind);
    stops = λ rest. field-Stops (c ∷ s) rest field;
  }

  pub quoted-ReadsAs : (s : Str) → IsQuotable s → ReadsAs (b'"' ∷ (s ++ b'"' ∷ [])) s
  quoted-ReadsAs s (full, quotable) = record {
    reads = λ rest behind.
        unfold parse_opt_string parse_quoted_string in
        rw (
          append_assoc s (b'"' ∷ []) rest,
          tag_some (codes "\"") (s ++ b'"' ∷ rest),
          take_while1_some is_not_quote s (b'"' ∷ rest) full quotable refl,
          tag_some (codes "\"") rest,
        );
    stops = λ rest. refl;
  }

  -- The fields of a line of six.
  module _ (kind : ℕ) (name id gecos home_dir shell : Str) (g h s : Str) where
    abbrev pub six_line : Str
    six_line =
        kind ∷ b' ' ∷ (name ++ b' ' ∷ (id ++ b' ' ∷ (gecos ++ b' ' ∷ (home_dir ++ b' ' ∷ shell))))

    pub parse_line_lem :
        IsField name
        → IsField id
        → ReadsAs gecos g
        → ReadsAs home_dir h
        → ReadsAs shell s
        → parse_line n six_line
          ≡ ok (
            [],
            record {
              kind = kind ∷ [];
              name = name;
              id = id;
              gecos = some g;
              home_dir = some h;
              shell = some s;
            },
          )
    unfolding parse_line
    parse_line_lem is_name is_id reads_g reads_h reads_s =
        let from_shell = shell in
        let from_home = home_dir ++ b' ' ∷ from_shell in
        let from_gecos = gecos ++ b' ' ∷ from_home in
        let from_id = id ++ b' ' ∷ from_gecos in
        let last_reads : parse_opt_string n shell ≡ ok ([], some s) =
          rw (append-nil shell) at (reads_s.reads [] tt) in
        let last_stops : Stops is_multispace shell = rw (append-nil shell) at (reads_s.stops []) in
        rw (
          anychar_some kind (b' ' ∷ (name ++ b' ' ∷ from_id)),
          one_space1 (name ++ b' ' ∷ from_id) (field-Stops name (b' ' ∷ from_id) is_name),
          take_while1_some is_field_char name (b' ' ∷ from_id) is_name.0 is_name.1 refl,
          one_space1 from_id (field-Stops id (b' ' ∷ from_gecos) is_id),
          take_while1_some is_field_char id (b' ' ∷ from_gecos) is_id.0 is_id.1 refl,
          one_space0 from_gecos (reads_g.stops (b' ' ∷ from_home)),
          reads_g.reads (b' ' ∷ from_home) refl,
          one_space0 from_home (reads_h.stops (b' ' ∷ from_shell)),
          reads_h.reads (b' ' ∷ from_shell) refl,
          one_space0 shell last_stops,
          last_reads,
          no_space0,
        )

    pub parse_data_lem :
        IsField name
        → IsField id
        → ReadsAs gecos g
        → ReadsAs home_dir h
        → ReadsAs shell s
        → parse_to_sysusers_data n six_line
          ≡ ok (record {
            kind = kind ∷ [];
            name = name;
            id = id;
            gecos = some g;
            home_dir = some h;
            shell = some s;
          })
    unfolding parse_to_sysusers_data
    parse_data_lem is_name is_id reads_g reads_h reads_s =
        rw (parse_line_lem is_name is_id reads_g reads_h reads_s)

  -- A quoted field with nothing between the quotes is refused.
  pub parse_line-empty_quotes :
      (kind : ℕ) (name id rest : Str)
      → IsField name
      → IsField id
      → Fails (parse_line n (kind ∷ b' ' ∷ (name ++ b' ' ∷ (id ++ b' ' ∷ b'"' ∷ b'"' ∷ rest))))
  unfolding parse_line parse_opt_string parse_quoted_string
  parse_line-empty_quotes kind name id rest is_name is_id =
      let from_gecos = b'"' ∷ b'"' ∷ rest in
      let from_id = id ++ b' ' ∷ from_gecos in
      let (e, bad) = take_while1_none is_not_quote (b'"' ∷ rest) refl in
      (
        e,
        rw (
          anychar_some kind (b' ' ∷ (name ++ b' ' ∷ from_id)),
          one_space1 (name ++ b' ' ∷ from_id) (field-Stops name (b' ' ∷ from_id) is_name),
          take_while1_some is_field_char name (b' ' ∷ from_id) is_name.0 is_name.1 refl,
          one_space1 from_id (field-Stops id (b' ' ∷ from_gecos) is_id),
          take_while1_some is_field_char id (b' ' ∷ from_gecos) is_id.0 is_id.1 refl,
          one_space0 from_gecos refl,
          tag_some (codes "\"") (b'"' ∷ rest),
          bad,
        ),
      )
