-- ===== src/Sysusers/Grammar/Fields.antt =====
-- `parse_opt_string` and `parse_line` of src/sysusers/parse.rs return what the grammar says.
use mathlib.Core.Path.{subst}
use libsystemd_rs.Base.{
  false, [], ◌∷◌, ◌++◌, Option, none, some, ◌==◌, starts_with, Str, codes, ok, >>=-eq-ok, >>=-elim,
  ◌≡◌, ◌↔◌, refl, Bool-cases, inl, inr,
}
use libsystemd_rs.Sysusers.Data.{SysusersData}
use libsystemd_rs.Sysusers.Grammar.{
  Longest, Longest1, plain_char, IsOptional, missing, quoted, plain, IsLine,
}
use libsystemd_rs.Sysusers.Grammar.Combinators.{
  anychar_iff, multispace0_iff, multispace1_iff, take_while1_iff, tag_iff, not-Longest1-nil,
}
use libsystemd_rs.Sysusers.Nom.{Nom, NomLaws, IResult, is_multispace}
use libsystemd_rs.Sysusers.Parse.{
  is_field_char, is_not_quote, parse_quoted_string, parse_plain_string, parse_opt_string,
  parse_line,
}

-- Equal results have equal parts.
ok-inj {ℓ} :
    {A : Type ℓ} {rest rest' : Str} {v v' : A}
    → ◌≡◌ {A = IResult A} (ok (rest, v)) (ok (rest', v'))
    → (rest ≡ rest') × (v ≡ v')
ok-inj h = (cc, cc)

module _ (n : Nom) (laws : NomLaws n) where
  parse_quoted_string-IsOptional :
      (s rest : Str) (v : Option Str) → parse_quoted_string n s ≡ ok (rest, v) → IsOptional s rest v
  unfolding parse_quoted_string
  parse_quoted_string-IsOptional s rest v h =
      let ((r1, t1), opens, h) = >>=-eq-ok (n.tag (codes "\"") s) _ h in
      let ((r2, t2), inner, h) = >>=-eq-ok (n.take_while1 is_not_quote r1) _ h in
      let ((r3, t3), closes, h) = >>=-eq-ok (n.tag (codes "\"") r2) _ h in
      let (starts, _) = (tag_iff n laws b'"' s r1 t1).0 opens in
      let (full, (same, all, stops)) = (take_while1_iff n laws is_not_quote r1 r2 t2).0 inner in
      let (ends, _) = (tag_iff n laws b'"' r2 r3 t3).0 closes in
      let last : r3 ≡ rest = cc in
      let is_v : some t2 ≡ v = cc in subst (IsOptional s rest) is_v (quoted t2 (cc) full all)

  parse_plain_string-IsOptional :
      (s rest : Str) (v : Option Str)
      → starts_with b'"' s ≡ false
      → parse_plain_string n s ≡ ok (rest, v)
      → IsOptional s rest v
  unfolding parse_plain_string
  parse_plain_string-IsOptional s rest v no_quote h =
      let ((r1, t1), inner, h) = >>=-eq-ok (n.take_while1 is_field_char s) _ h in
      let last : r1 ≡ rest = cc in
      let is_v : some t1 ≡ v = cc in
      let longest = (take_while1_iff n laws is_field_char s r1 t1).0 inner in
      subst (IsOptional s rest) is_v
        (plain t1 no_quote (subst (λ r. Longest1 plain_char s r t1) last longest))

  parse_opt_string-IsOptional :
      (s rest : Str) (v : Option Str) → parse_opt_string n s ≡ ok (rest, v) → IsOptional s rest v
  unfolding parse_opt_string
  parse_opt_string-IsOptional [] rest v h =
      let is_v : none ≡ v = cc in subst (IsOptional [] rest) is_v (missing refl (cc))
  parse_opt_string-IsOptional (c ∷ s) rest v h = elim (Bool-cases (c == b'"')) [
    | inl quote ↦ parse_quoted_string-IsOptional (c ∷ s) rest v (rw quote at h)
    | inr other ↦ parse_plain_string-IsOptional (c ∷ s) rest v other (rw other at h)
  ]

  IsOptional-parse_opt_string :
      (s rest : Str) (v : Option Str) → IsOptional s rest v → parse_opt_string n s ≡ ok (rest, v)
  unfolding parse_opt_string parse_quoted_string parse_plain_string
  IsOptional-parse_opt_string s rest none (missing h k) = rw (h, k)
  IsOptional-parse_opt_string s rest (some _) (quoted text h full all) = rw (
    h,
    (tag_iff n laws b'"' (b'"' ∷ (text ++ b'"' ∷ rest)) (text ++ b'"' ∷ rest) (b'"' ∷ [])).1
        (refl, refl),
    (take_while1_iff n laws is_not_quote (text ++ b'"' ∷ rest) (b'"' ∷ rest) text).1
        (full, (refl, all, refl)),
    (tag_iff n laws b'"' (b'"' ∷ rest) rest (b'"' ∷ [])).1 (refl, refl),
  )
  IsOptional-parse_opt_string [] rest (some _) (plain text no_quote longest) =
      absurd (not-Longest1-nil plain_char rest text longest)
  IsOptional-parse_opt_string (c ∷ s) rest (some _) (plain text no_quote longest) =
      rw (no_quote, (take_while1_iff n laws is_field_char (c ∷ s) rest text).1 longest)

  pub parse_opt_string_iff :
      (s rest : Str) (v : Option Str) → (parse_opt_string n s ≡ ok (rest, v)) ↔ IsOptional s rest v
  parse_opt_string_iff s rest v =
      (parse_opt_string-IsOptional s rest v, IsOptional-parse_opt_string s rest v)

  pub IsLine-parse_line :
      (s rest : Str) (d : SysusersData) → IsLine s rest d → parse_line n s ≡ ok (rest, d)
  unfolding parse_line
  IsLine-parse_line s rest d l = rw (
    (anychar_iff n laws s l.after_kind l.kind).1 l.typed,
    (multispace1_iff n laws l.after_kind l.from_name l.blank1).1 l.gap1,
    (take_while1_iff n laws is_field_char l.from_name l.after_name d.name).1 l.name_is,
    (multispace1_iff n laws l.after_name l.from_id l.blank2).1 l.gap2,
    (take_while1_iff n laws is_field_char l.from_id l.after_id d.id).1 l.id_is,
    (multispace0_iff n laws l.after_id l.from_gecos l.blank3).1 l.gap3,
    IsOptional-parse_opt_string l.from_gecos l.after_gecos d.gecos l.gecos_is,
    (multispace0_iff n laws l.after_gecos l.from_home_dir l.blank4).1 l.gap4,
    IsOptional-parse_opt_string l.from_home_dir l.after_home_dir d.home_dir l.home_dir_is,
    (multispace0_iff n laws l.after_home_dir l.from_shell l.blank5).1 l.gap5,
    IsOptional-parse_opt_string l.from_shell l.after_shell d.shell l.shell_is,
    (multispace0_iff n laws l.after_shell rest l.blank6).1 l.gap6,
    ← l.kind_is,
  )

  pub parse_line-IsLine :
      (s rest : Str) (d : SysusersData) → parse_line n s ≡ ok (rest, d) → IsLine s rest d
  unfolding parse_line
  parse_line-IsLine s rest d h = >>=-elim (n.anychar s) _ h λ (r0, kind) typed h.
      >>=-elim (n.multispace1 r0) _ h λ (r1, b1) gap1 h.
        >>=-elim (n.take_while1 is_field_char r1) _ h λ (r2, name) named h.
          >>=-elim (n.multispace1 r2) _ h λ (r3, b2) gap2 h.
            >>=-elim (n.take_while1 is_field_char r3) _ h λ (r4, id) identified h.
              >>=-elim (n.multispace0 r4) _ h λ (r5, b3) gap3 h.
                >>=-elim (parse_opt_string n r5) _ h λ (r6, gecos) has_gecos h.
                  >>=-elim (n.multispace0 r6) _ h λ (r7, b4) gap4 h.
                    >>=-elim (parse_opt_string n r7) _ h λ (r8, home_dir) has_home h.
                      >>=-elim (n.multispace0 r8) _ h λ (r9, b5) gap5 h.
                        >>=-elim (parse_opt_string n r9) _ h λ (r10, shell) has_shell h.
                          >>=-elim (n.multispace0 r10) _ h λ (r11, b6) gap6 h.
                            let fields : SysusersData = record {
                              kind = kind ∷ [];
                              name = name;
                              id = id;
                              gecos = gecos;
                              home_dir = home_dir;
                              shell = shell;
                            } in
                            let (left, same) = ok-inj h in
                            let line : IsLine s rest fields = record {
                              kind = kind;
                              blank1 = b1;
                              blank2 = b2;
                              blank3 = b3;
                              blank4 = b4;
                              blank5 = b5;
                              blank6 = b6;
                              after_kind = r0;
                              from_name = r1;
                              after_name = r2;
                              from_id = r3;
                              after_id = r4;
                              from_gecos = r5;
                              after_gecos = r6;
                              from_home_dir = r7;
                              after_home_dir = r8;
                              from_shell = r9;
                              after_shell = r10;
                              typed = (anychar_iff n laws s r0 kind).0 typed;
                              kind_is = refl;
                              gap1 = (multispace1_iff n laws r0 r1 b1).0 gap1;
                              name_is = (take_while1_iff n laws is_field_char r1 r2 name).0 named;
                              gap2 = (multispace1_iff n laws r2 r3 b2).0 gap2;
                              id_is = (take_while1_iff n laws is_field_char r3 r4 id).0 identified;
                              gap3 = (multispace0_iff n laws r4 r5 b3).0 gap3;
                              gecos_is = parse_opt_string-IsOptional r5 r6 gecos has_gecos;
                              gap4 = (multispace0_iff n laws r6 r7 b4).0 gap4;
                              home_dir_is = parse_opt_string-IsOptional r7 r8 home_dir has_home;
                              gap5 = (multispace0_iff n laws r8 r9 b5).0 gap5;
                              shell_is = parse_opt_string-IsOptional r9 r10 shell has_shell;
                              gap6 =
                                  subst (λ r. Longest is_multispace r10 r b6) left
                                    ((multispace0_iff n laws r10 r11 b6).0 gap6);
                            } in
                            subst (IsLine s rest) same line
