-- ===== src/Unit/Quickcheck.antt =====
-- The tests of src/unit.rs: the properties that quickcheck samples, as functions of what it chooses,
-- and the two tables of cases.
use libsystemd_rs.Base.{
  ℕ, Bool, true, false, not, ◌&&◌, ◌||◌, List, [], ◌∷◌, ◌==◌, All, is_empty, contains, starts_with,
  equal, length, IsChar, Str, codes, ◌≡◌, refl, arith,
}
use libsystemd_rs.Unit.Runs.{has_run, escape_path_shape}
use libsystemd_rs.Unit.{escape_byte, escape_name, escape_path}

abbrev is_prefix : Str → Str → Bool
is_prefix [] s = true
is_prefix (c ∷ t) [] = false
is_prefix (c ∷ t) (d ∷ s) = c == d && is_prefix t s

-- `str::contains` of a text
abbrev pub contains_str : Str → Str → Bool
contains_str t [] = is_empty t
contains_str t (c ∷ s) = is_prefix t (c ∷ s) || contains_str t s

pub test_byte_escape_length : ℕ → ℕ → Bool
unfolding escape_byte
test_byte_escape_length xs n = let out = escape_byte xs n in length out == 1 || length out == 4

pub test_path_escape_nonempty : Str → Bool
test_path_escape_nonempty xs = let out = escape_path xs in not (is_empty out)

pub test_path_escape_no_slash : Str → Bool
test_path_escape_no_slash xs = let out = escape_path xs in not (contains b'/' out)

pub test_path_escape_no_dash_runs : Str → Bool
test_path_escape_no_dash_runs xs = let out = escape_path xs in not (contains_str (codes "--") out)

pub test_path_escape_no_leading_dot : Str → Bool
test_path_escape_no_leading_dot xs = let out = escape_path xs in not (starts_with b'.' out)

-- A table of inputs and what is expected of them
abbrev pub passes_all : (Str → Str) → List (Str × Str) → Bool
passes_all f [] = true
passes_all f ((input, expected) ∷ cases) = equal (f input) expected && passes_all f cases

unfoldable pub test_name_escape : Bool
unfolding escape_name equal
test_name_escape = passes_all escape_name (
    (codes "", codes "")
    ∷ (codes ".foo/.bar", codes "\\x2efoo-.bar")
    ∷ (codes "///..\\-!#??///", codes "---..\\x5c\\x2d\\x21\\x23\\x3f\\x3f---")
    ∷ (
      codes "user-cloudinit@/var/lib/coreos/vagrant/vagrantfile-user-data.service",
      codes "user\\x2dcloudinit\\x40-var-lib-coreos-vagrant-vagrantfile\\x2duser\\x2ddata.service",
    )
    ∷ [])

unfoldable pub test_path_escape : Bool
unfolding escape_path equal
test_path_escape = passes_all escape_path (
    (codes "", codes "-")
    ∷ (codes "/////////", codes "-")
    ∷ (codes "///foo////bar/////tail//////", codes "foo-bar-tail")
    ∷ (codes ".", codes "\\x2e")
    ∷ (codes "/.", codes "\\x2e")
    ∷ (codes "/////////.///////////////", codes "\\x2e")
    ∷ (codes ".....", codes "\\x2e....")
    ∷ (codes "/.foo/.bar", codes "\\x2efoo-.bar")
    ∷ (codes ".foo/.bar", codes "\\x2efoo-.bar")
    ∷ (codes "///..\\-!#??///", codes "\\x2e.\\x5c\\x2d\\x21\\x23\\x3f\\x3f")
    ∷ [])

contains_str-has_run : (s : Str) → contains_str (codes "--") s ≡ has_run b'-' s
contains_str-has_run [] = refl
contains_str-has_run (c ∷ []) = ground arith
contains_str-has_run (c ∷ d ∷ s) = ground (arith, contains_str-has_run (d ∷ s))

escape_byte_length : (b n : ℕ) → test_byte_escape_length b n ≡ true
unfolding test_byte_escape_length
escape_byte_length b n = ground arith

-- Whatever quickcheck chooses, a byte and a position or a text of Unicode characters, its five
-- properties hold.
pub quickcheck-passes :
    (b n : ℕ) (s : Str)
    → All IsChar s
    → (test_byte_escape_length b n ≡ true)
      × (test_path_escape_nonempty s ≡ true)
      × (test_path_escape_no_slash s ≡ true)
      × (test_path_escape_no_dash_runs s ≡ true)
      × (test_path_escape_no_leading_dot s ≡ true)
unfolding test_path_escape_nonempty test_path_escape_no_slash test_path_escape_no_dash_runs
    test_path_escape_no_leading_dot
quickcheck-passes b n s h =
    let (_, full, no_slash, no_runs, no_dot) = escape_path_shape s h in
    (
      escape_byte_length b n,
      rw full,
      rw no_slash,
      rw (contains_str-has_run (escape_path s), no_runs),
      rw no_dot,
    )
