-- ===== src/Credentials/Directory.antt =====
-- The path at which a credential is opened. `.` and `..` are IDs like any other.
use libsystemd_rs.Base.{
  ℕ, Bool, true, false, List, [], ◌∷◌, ◌++◌, append_assoc, append-nil, ◌==◌, is_empty, keep,
  contains, starts_with, split, split_one, Lacks, Str, ok, Result-cases, ◌≡◌, ◌↔◌, refl, sym, ap,
  ◌∙◌, inl, inr, Bool-cases, arith,
}
use libsystemd_rs.Credentials.{
  FileSystem, CredentialsLoader, ends_with, join, cred_absolute_path, get,
}
use libsystemd_rs.Decimal.Signed.{ℤ}
use libsystemd_rs.Unit.Components.{components, is_named}

contains_iff : (c : ℕ) (s : Str) → (contains c s ≡ false) ↔ Lacks c s
unfolding contains
contains_iff c [] = ground arith
contains_iff c (x ∷ s) = ground (arith, contains_iff c s)

-- `split` gives at least one part.
split_cons : (sep : ℕ) (a : Str) → (p : Str) × (ps : List Str) × (split sep a ≡ p ∷ ps)
unfolding split
split_cons sep [] = ([], [], refl)
split_cons sep (c ∷ a) = elim (Bool-cases (c == sep)) [
  | inl same ↦ ([], split sep a, ground (arith, same))
  | inr other ↦ let (p, ps, parts) = split_cons sep a in (c ∷ p, ps, ground (arith, other, parts))
]

split-append_sep : (sep : ℕ) (a b : Str) → split sep (a ++ sep ∷ b) ≡ split sep a ++ split sep b
unfolding split
split-append_sep sep [] b = ground arith
split-append_sep sep (c ∷ a) b =
    let (p, ps, parts) = split_cons sep a in ground (arith, split-append_sep sep a b, parts)

keep-append {ℓ} :
    {A : Type ℓ} (p : A → Bool) (xs ys : List A) → keep p (xs ++ ys) ≡ keep p xs ++ keep p ys
keep-append p [] ys = refl
keep-append p (x ∷ xs) ys = ground (arith, keep-append p xs ys)

components-append_sep : (a b : Str) → components (a ++ b'/' ∷ b) ≡ components a ++ components b
components-append_sep a b =
    ap (keep is_named) (split-append_sep b'/' a b)
    ∙ keep-append is_named (split b'/' a) (split b'/' b)

components_one : (s : Str) → Lacks b'/' s → is_empty s ≡ false → components s ≡ s ∷ []
components_one s lacks named = ap (keep is_named) (split_one b'/' s lacks) ∙ ground (arith, named)

-- A path that ends in a slash is another path with a slash behind it.
without_slash : (s : Str) → ends_with s ≡ true → (a : Str) × (s ≡ a ++ b'/' ∷ [])
without_slash [] h = cc
without_slash (c ∷ []) h = ([], ground arith)
without_slash (c ∷ d ∷ s) h = let (a, same) = without_slash (d ∷ s) h in (c ∷ a, ap (◌∷◌ c) same)

components-empty : components [] ≡ []
unfolding split
components-empty = refl

components-append_slash : (a : Str) → components (a ++ b'/' ∷ []) ≡ components a
components-append_slash a =
    components-append_sep a []
    ∙ ap (◌++◌ (components a)) components-empty
    ∙ append-nil (components a)

relative : (i : Str) → Lacks b'/' i → starts_with b'/' i ≡ false
relative [] lacks = refl
relative (c ∷ i) lacks = ground arith

join_ends :
    (c : ℕ) (path i : Str)
    → Lacks b'/' i
    → ends_with (c ∷ path) ≡ true
    → join (c ∷ path) i ≡ (c ∷ path) ++ i
unfolding join
join_ends c path i lacks ends = rw (relative i lacks) (rw ends refl)

join_open :
    (c : ℕ) (path i : Str)
    → Lacks b'/' i
    → ends_with (c ∷ path) ≡ false
    → join (c ∷ path) i ≡ (c ∷ path) ++ b'/' ∷ i
unfolding join
join_open c path i lacks ends = rw (relative i lacks) (rw ends refl)

components-join :
    (path i : Str)
    → Lacks b'/' i
    → is_empty i ≡ false
    → components (join path i) ≡ components path ++ i ∷ []
unfolding join
components-join [] i lacks named =
    ap (◌++◌ []) (components_one i lacks named) ∙ ap (λ ws. ws ++ i ∷ []) (sym components-empty)
components-join (c ∷ path) i lacks named = elim (Bool-cases (ends_with (c ∷ path))) [
  | inl ends ↦
      let (a, same) = without_slash (c ∷ path) ends in
      ap components (join_ends c path i lacks ends)
      ∙ ap (λ s. components (s ++ i)) same
      ∙ ap components (append_assoc a (b'/' ∷ []) i)
      ∙ components-append_sep a i
      ∙ ap (◌++◌ (components a)) (components_one i lacks named)
      ∙ ap (λ ws. ws ++ i ∷ []) (sym (ap components same ∙ components-append_slash a))
  | inr open_ ↦
      ap components (join_open c path i lacks open_)
      ∙ components-append_sep (c ∷ path) i
      ∙ ap (◌++◌ (components (c ∷ path))) (components_one i lacks named)
]

starts_with-join :
    (path i : Str) → Lacks b'/' i → starts_with b'/' (join path i) ≡ starts_with b'/' path
unfolding join
starts_with-join [] i lacks = relative i lacks
starts_with-join (c ∷ path) i lacks = elim (Bool-cases (ends_with (c ∷ path))) [
  | inl ends ↦ ap (starts_with b'/') (join_ends c path i lacks ends)
  | inr open_ ↦ ap (starts_with b'/') (join_open c path i lacks open_)
]

-- An ID gives a path exactly if it holds no slash.
cred_absolute_path_iff :
    (loader : CredentialsLoader) (i p : Str)
    → (cred_absolute_path loader i ≡ ok p) ↔ (Lacks b'/' i × (p ≡ join loader.path i))
unfolding cred_absolute_path
cred_absolute_path_iff loader i p =
    ground (arith, Bool-cases (contains b'/' i), contains_iff b'/' i)

module _ (fs : FileSystem) where
  -- A credential is opened exactly if its ID holds no slash and the file system opens the file of that
  -- name in the directory.
  pub get_iff :
      (loader : CredentialsLoader) (i : Str) (f : ℤ)
      → (get fs loader i ≡ ok f) ↔ (Lacks b'/' i × (fs.open_file (join loader.path i) ≡ ok f))
  unfolding get cred_absolute_path
  get_iff loader i f = ground (
    arith,
    Bool-cases (contains b'/' i),
    contains_iff b'/' i,
    Result-cases (fs.open_file (join loader.path i)),
  )

  -- A credential whose ID is not empty is opened at a path that is absolute exactly if the directory's
  -- path is, and whose components are those of the directory's path with the ID, as it is, behind them.
  pub get-components :
      (loader : CredentialsLoader) (i : Str) (f : ℤ)
      → is_empty i ≡ false
      → get fs loader i ≡ ok f
      → (p : Str) × (fs.open_file p ≡ ok f)
        × (starts_with b'/' p ≡ starts_with b'/' loader.path)
        × (components p ≡ components loader.path ++ i ∷ [])
  get-components loader i f named h =
      let (lacks, opened) = (get_iff loader i f).0 h in
      (
        join loader.path i,
        opened,
        starts_with-join loader.path i lacks,
        components-join loader.path i lacks named,
      )
