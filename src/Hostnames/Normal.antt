-- ===== src/Hostnames/Normal.antt =====
-- A normalised hostname is normal: white space, capitals and a last dot are gone.
use Prim.Native.Char.{Char, code}
use managed_oss_cloud.Common.{
  ℕ, String, Bool, true, false, ◌&&◌, ◌||◌, List, [], ◌∷◌, ◌≡◌, refl, ap, sym, ◌∙◌, arith, leb,
  ◌==◌, all, trim, trim_end, is_space, str_eq, eq_iff, Bool-cases, inl, inr, and-parts,
}
use managed_oss_cloud.Common.Result.{returned}
use managed_oss_cloud.Hostnames.{
  lower_char, lower, without_last_dot, on_first, labels_of, str_length, all_chars, is_letter,
  is_label_char, labels_match, hostname_pattern, is_hostname, normalize_hostname,
}

abbrev is_host_char : ℕ → Bool
is_host_char c = is_label_char c || c == 46

label_chars :
    (labels : List String)
    → labels_match labels ≡ true
    → all (all_chars is_label_char) labels ≡ true
label_chars [] h = cc
label_chars (last ∷ []) h =
    ap (λ b. b && true)
      (of_letters last (and-parts (leb 2 (str_length last)) (all_chars is_letter last) h).1)
  where
    of_letters : (s : String) → all_chars is_letter s ≡ true → all_chars is_label_char s ≡ true
    of_letters String.[] h = refl
    of_letters (String.◌∷◌ c s) h = ground (arith, of_letters s)
label_chars (label ∷ next ∷ labels) h = ground (arith, label_chars (next ∷ labels))

on_first_chars :
    (c : Char) (labels : List String)
    → all (all_chars is_label_char) (on_first c labels) ≡ true
    → (is_label_char (code c) ≡ true) × (all (all_chars is_label_char) labels ≡ true)
on_first_chars c [] h = ground arith
on_first_chars c (label ∷ labels) h = ground arith

host_chars :
    (s : String)
    → all (all_chars is_label_char) (labels_of s) ≡ true
    → all_chars is_host_char s ≡ true
host_chars String.[] h = refl
host_chars (String.◌∷◌ c s) h = elim (Bool-cases (code c == 46)) [
  | inl b ↦ rw (b, host_chars s (rw b at h)) (ground (arith, b))
  | inr b ↦
      let (first, rest) = on_first_chars c (labels_of s) (rw b at h) in
      rw (host_chars s rest) (ground (arith, first))
]

lower_char_fixed : (c : Char) → is_host_char (code c) ≡ true → lower_char c ≡ c
lower_char_fixed c h = ground arith

lower_fixed : (s : String) → all_chars is_host_char s ≡ true → lower s ≡ s
lower_fixed String.[] h = refl
lower_fixed (String.◌∷◌ c s) h =
    let (first, rest) = and-parts (is_host_char (code c)) (all_chars is_host_char s) h in
    rw (lower_char_fixed c first, lower_fixed s rest) refl

trim_end_fixed : (s : String) → all_chars is_host_char s ≡ true → trim_end s ≡ s
trim_end_fixed String.[] h = refl
trim_end_fixed (String.◌∷◌ c s) h =
    let (first, rest) = and-parts (is_host_char (code c)) (all_chars is_host_char s) h in
    let ink : is_space (code c) ≡ false = ground (arith, first) in
    rw (ink, trim_end_fixed s rest) refl

trim_fixed : (s : String) → all_chars is_host_char s ≡ true → trim s ≡ s
trim_fixed String.[] h = refl
trim_fixed (String.◌∷◌ c s) h =
    let (first, rest) = and-parts (is_host_char (code c)) (all_chars is_host_char s) h in
    let ink : is_space (code c) ≡ false = ground (arith, first) in
    rw ink (trim_end_fixed (String.◌∷◌ c s) h)

abbrev last_ok : List String → Bool
last_ok [] = false
last_ok (label ∷ []) = leb 1 (str_length label)
last_ok (label ∷ next ∷ labels) = last_ok (next ∷ labels)

match_last_ok : (labels : List String) → labels_match labels ≡ true → last_ok labels ≡ true
match_last_ok [] h = h
match_last_ok (last ∷ []) h = ground arith
match_last_ok (label ∷ next ∷ labels) h =
    match_last_ok (next ∷ labels)
      (and-parts (leb 1 (str_length label) && all_chars is_label_char label)
        (labels_match (next ∷ labels)) h).1

abbrev is_empty : String → Bool
is_empty String.[] = true
is_empty (String.◌∷◌ c s) = false

labels_cons :
    (s : String) → (label : String) × (labels : List String) × (labels_of s ≡ label ∷ labels)
labels_cons String.[] = ("", [], refl)
labels_cons (String.◌∷◌ c s) =
    let (label, labels, e) = labels_cons s in
    elim (Bool-cases (code c == 46)) [
      | inl b ↦ ("", labels_of s, rw b refl)
      | inr b ↦ (String.◌∷◌ c label, labels, rw (b, e) refl)
    ]

longer_last_ok :
    (c d : Char) (label : String) (labels : List String)
    → last_ok (String.◌∷◌ c (String.◌∷◌ d label) ∷ labels) ≡ last_ok (String.◌∷◌ d label ∷ labels)
longer_last_ok c d label [] = ground arith
longer_last_ok c d label (next ∷ labels) = refl

tail_last_ok :
    (c d : Char) (t : String)
    → last_ok (labels_of (String.◌∷◌ c (String.◌∷◌ d t))) ≡ true
    → last_ok (labels_of (String.◌∷◌ d t)) ≡ true
tail_last_ok c d t h =
    let (label, labels, e) = labels_cons t in
    elim (Bool-cases (code d == 46)) [
      | inl b ↦ elim (Bool-cases (code c == 46)) [
        | inl a ↦ rw (b, e) (rw (a, b, e) at h)
        | inr a ↦ rw (b, e) (rw (a, b, e) at h)
      ]
      | inr b ↦ elim (Bool-cases (code c == 46)) [
        | inl a ↦ rw (b, e) (rw (a, b, e) at h)
        | inr a ↦ rw (b, e) (sym (longer_last_ok c d label labels) ∙ (rw (a, b, e) at h))
      ]
    ]

cons_not_empty : (c : Char) (s : String) → str_eq (String.◌∷◌ c s) "" ≡ false
cons_not_empty c s = elim (Bool-cases (str_eq (String.◌∷◌ c s) "")) [
  | inl b ↦ cc ((eq_iff (String.◌∷◌ c s) "").0 b)
  | inr b ↦ b
]

without_last_dot_fixed : (s : String) → last_ok (labels_of s) ≡ true → without_last_dot s ≡ s
without_last_dot_fixed String.[] h = refl
without_last_dot_fixed (String.◌∷◌ c String.[]) h = elim (Bool-cases (code c == 46)) [
  | inl b ↦ cc (rw b at h)
  | inr b ↦ rw b refl
]
without_last_dot_fixed (String.◌∷◌ c (String.◌∷◌ d t)) h =
    rw (cons_not_empty d t)
      (ap (String.◌∷◌ c) (without_last_dot_fixed (String.◌∷◌ d t) (tail_last_ok c d t h)))

is_hostname-normal : (h : String) → is_hostname h ≡ true → normalize_hostname h ≡ returned h
unfolding normalize_hostname
is_hostname-normal h ok =
    let (sized, _) = and-parts (leb (str_length h) 230 && hostname_pattern h) _ ok in
    let (_, pattern) = and-parts (leb (str_length h) 230) (hostname_pattern h) sized in
    let (_, labels) = and-parts _ (labels_match (labels_of h)) pattern in
    let chars = host_chars h (label_chars (labels_of h) labels) in
    rw
      (
        trim_fixed h chars,
        lower_fixed h chars,
        without_last_dot_fixed h (match_last_ok (labels_of h) labels),
        ok,
      )
      refl

-- A hostname that is normalised is normal: it is accepted again, and comes out unchanged.
pub normalize_idempotent :
    (value hostname : String)
    → normalize_hostname value ≡ returned hostname
    → normalize_hostname hostname ≡ returned hostname
unfolding normalize_hostname
normalize_idempotent value hostname h =
    elim (Bool-cases (is_hostname (without_last_dot (lower (trim value))))) [
      | inl b ↦
          let same : without_last_dot (lower (trim value)) ≡ hostname = cc (rw b at h) in
          is_hostname-normal hostname (ap is_hostname (sym same) ∙ b)
      | inr b ↦ cc (rw b at h)
    ]
