-- ===== src/Unit/Path.antt =====
-- What `escape_path` computes, in terms of the components of the path.
use libsystemd_rs.Base.{
  true, false, List, [], ◌∷◌, ◌++◌, is_empty, All, All-append, Str, Bytes, bytes, split, concat,
  ◌≡◌, ◌↔◌, refl, arith, append-nil, ap, ◌∙◌, sym, IsByte, IsChar, bytes-IsByte, inl, inr,
  Bool-cases, some, keep-All, split-All, Lacks, split-Lacks, split_one, split_first, keep-true,
  keep_everything,
}
use libsystemd_rs.Unit.Components.{
  components, join_path, lead, is_named, squeeze-trim_slashes, is_empty-trim_slashes,
  bytes-trim_slashes, is_empty-bytes,
}
use libsystemd_rs.Unit.Unescape.{unescape, unescape-escape_each}
use libsystemd_rs.Unit.{escape_byte, escape_each, escape_path, trim_slashes, squeeze}

-- The path that `escape_path` stands for: `/` when no component is left.
abbrev pub path_of : List Bytes → Bytes
path_of [] = b'/' ∷ []
path_of (p ∷ ps) = p ++ lead ps

path_of-join_path : (ws : List Bytes) → is_empty ws ≡ false → join_path ws ≡ path_of ws
path_of-join_path [] h = cc
path_of-join_path (p ∷ ps) h = refl

is_empty-eq-nil : (ws : List Bytes) → is_empty ws ≡ true → ws ≡ []
is_empty-eq-nil [] h = refl
is_empty-eq-nil (p ∷ ps) h = cc

lead-IsByte : (ws : List Bytes) → All (All IsByte) ws → All IsByte (lead ws)
lead-IsByte [] h = tt
lead-IsByte (p ∷ ps) (h, hs) = (omega arith, All-append IsByte p (lead ps) h (lead-IsByte ps hs))

pub path_of-IsByte : (ws : List Bytes) → All (All IsByte) ws → All IsByte (path_of ws)
path_of-IsByte [] h = (omega arith, tt)
path_of-IsByte (p ∷ ps) (h, hs) = All-append IsByte p (lead ps) h (lead-IsByte ps hs)

pub components-IsByte : (s : Bytes) → All IsByte s → All (All IsByte) (components s)
components-IsByte s h = keep-All (All IsByte) is_named _ (split-All IsByte b'/' s h)

-- `escape_path` reads of its argument only the components.
pub escape_path-components :
    (s : Str) → escape_path s ≡ concat (escape_each 0 (path_of (components (bytes s))))
unfolding escape_path
escape_path-components s =
    let ws = components (bytes s) in
    let none_left : is_empty (trim_slashes s) ≡ is_empty ws =
      sym (is_empty-bytes (trim_slashes s))
      ∙ ap is_empty (bytes-trim_slashes s)
      ∙ is_empty-trim_slashes (bytes s) in
    let squeezed : squeeze false (bytes (trim_slashes s)) ≡ join_path ws =
      ap (squeeze false) (bytes-trim_slashes s) ∙ squeeze-trim_slashes (bytes s) in
    elim (Bool-cases (is_empty ws)) [
      | inl e ↦ rw (none_left, e, is_empty-eq-nil ws e) (unfold escape_each escape_byte in refl)
      | inr e ↦ rw (none_left, e, squeezed, path_of-join_path ws e)
    ]

-- For a path of Unicode characters, unescaping the escaped path gives the path's components with one
-- slash between two, and `/` for a path with none.
pub unescape-escape_path :
    (s : Str) → All IsChar s → unescape (escape_path s) ≡ some (path_of (components (bytes s)))
unescape-escape_path s h =
    rw escape_path-components
      (unescape-escape_each 0 _ (path_of-IsByte _ (components-IsByte (bytes s) (bytes-IsByte s h))))

split-lead :
    (p : Bytes) (ps : List Bytes)
    → Lacks b'/' p
    → All (Lacks b'/') ps
    → split b'/' (p ++ lead ps) ≡ p ∷ ps
split-lead p [] h hs = rw append-nil (split_one b'/' p h)
split-lead p (q ∷ qs) h (k, ks) =
    split_first b'/' p (q ++ lead qs) h ∙ ap (◌∷◌ p) (split-lead q qs k ks)

components-path_of :
    (ws : List Bytes)
    → All (Lacks b'/') ws
    → All (λ p. is_named p ≡ true) ws
    → components (path_of ws) ≡ ws
components-path_of [] h k = unfold split in refl
components-path_of (p ∷ ps) (h, hs) k =
    rw (split-lead p ps h hs) (keep_everything is_named (p ∷ ps) k)

components_idem : (s : Bytes) → components (path_of (components s)) ≡ components s
components_idem s =
    components-path_of (components s) (keep-All (Lacks b'/') is_named _ (split-Lacks b'/' s))
      (keep-true is_named (split b'/' s))

-- Two paths of Unicode characters have the same escaped form exactly when they have the same
-- components: repeated, leading and trailing slashes are all that is forgotten.
pub escape_path-eq_iff :
    (s t : Str)
    → All IsChar s
    → All IsChar t
    → (escape_path s ≡ escape_path t) ↔ (components (bytes s) ≡ components (bytes t))
escape_path-eq_iff s t hs ht = (
  (λ e.
      let paths : path_of (components (bytes s)) ≡ path_of (components (bytes t)) =
        cc (unescape-escape_path s hs, unescape-escape_path t ht) in
      sym (components_idem (bytes s)) ∙ ap components paths ∙ components_idem (bytes t)),
  (λ e. rw (escape_path-components, e, ← escape_path-components t)),
)
