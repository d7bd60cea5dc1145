-- ===== src/CpuInfo/Lines.antt =====
-- The search for a core's clock speed, in terms of the lines of the file.
use cpp_autotime.Prelude.{
  ℕ, zero, suc, ◌+◌, ◌<◌, ◌≡◌, ◌≢◌, refl, sym, ap, ◌∙◌, Bool, true, false, not, ◌&&◌, ◌==◌,
  Bool-cases, inl, inr, List, [], ◌∷◌, ◌++◌, arith, if◌then◌else◌, and-true,
}
use cpp_autotime.Prelude.Lists.{length, drop}
use cpp_autotime.CpuInfo.{
  ignore_until, newline, colon, key, matches, Found, found, missing, after_match, find_speed,
}

-- The line has no newline in it.
abbrev pub is_line : List ℕ → Bool
is_line [] = true
is_line (x ∷ xs) = not (x == newline) && is_line xs

abbrev pub are_lines : List (List ℕ) → Bool
are_lines [] = true
are_lines (l ∷ ls) = is_line l && are_lines ls

-- The text of a file, each line of which ends with a newline.
abbrev pub text : List (List ℕ) → List ℕ
text [] = []
text (l ∷ ls) = l ++ newline ∷ text ls

-- What follows a prefix.
abbrev pub starts : List ℕ → List ℕ → Bool
starts [] l = true
starts (c ∷ cs) [] = false
starts (c ∷ cs) (x ∷ l) = x == c && starts cs l

-- The line is a part of the key and ends before it does, as an empty line is.
abbrev pub breaks_off : List ℕ → List ℕ → Bool
breaks_off [] l = false
breaks_off (c ∷ cs) [] = true
breaks_off (c ∷ cs) (x ∷ l) = x == c && breaks_off cs l

-- No line that starts with the key follows on a line that breaks off.
abbrev pub is_regular : List (List ℕ) → Bool
is_regular [] = true
is_regular (l ∷ []) = true
is_regular (l ∷ l' ∷ ls) = not (breaks_off key l && starts key l') && is_regular (l' ∷ ls)

-- The text after the colon of the line that starts with the key and has `core_id - count` such lines
-- before it.
abbrev pub speed_of : ℕ → ℕ → List (List ℕ) → Found
speed_of core_id count [] = missing
speed_of core_id count (l ∷ ls) =
    let rest = speed_of core_id (count + 1) ls in
    let others = speed_of core_id count ls in
    if starts key l
    then (if count == core_id
        then found (ignore_until colon (drop (length key) l ++ newline ∷ text ls))
        else rest)
    else others

ignore_line :
    (t : List ℕ) (xs : List ℕ) → is_line t ≡ true → ignore_until newline (t ++ newline ∷ xs) ≡ xs
ignore_line [] xs h = refl
ignore_line (x ∷ t) xs h = elim (Bool-cases (x == newline)) [
  | inl end ↦ absurd (grind (arith, h, end))
  | inr other ↦ rw other (ignore_line t xs (rw other at h))
]

-- What `Matches` comes to at the start of a line.
pub data Matching (k l xs : List ℕ) : Type 0 where
  matched :
      starts k l ≡ true
      → matches k (l ++ newline ∷ xs) ≡ (true, drop (length k) l ++ newline ∷ xs, true)
      → Matching k l xs
  differed :
      (t : List ℕ)
      → is_line t ≡ true
      → starts k l ≡ false
      → matches k (l ++ newline ∷ xs) ≡ (false, t ++ newline ∷ xs, true)
      → Matching k l xs
  broke_off :
      breaks_off k l ≡ true
      → starts k l ≡ false
      → matches k (l ++ newline ∷ xs) ≡ (false, xs, true)
      → Matching k l xs

not_both : (c : ℕ) → (newline == c) ≡ true → not (c == newline) ≢ true
not_both c h k = ground arith

match_line : (k l xs : List ℕ) → is_line k ≡ true → is_line l ≡ true → Matching k l xs
unfolding matches
match_line [] l xs hk hl = matched refl refl
match_line (c ∷ k) [] xs hk hl = elim (Bool-cases (newline == c)) [
  | inl end ↦ absurd (not_both c end (and-true _ _ hk).0)
  | inr other ↦ broke_off refl refl (rw other refl)
]
match_line (c ∷ k) (x ∷ l) xs hk hl = elim (Bool-cases (x == c)) [
  | inr other ↦ differed l (and-true _ _ hl).1 (rw other refl) (rw other refl)
  | inl same ↦ elim (match_line k l xs (and-true _ _ hk).1 (and-true _ _ hl).1) [
    | matched s m ↦ matched (rw same s) (rw same m)
    | differed t ht s m ↦ differed t ht (rw same s) (rw same m)
    | broke_off b s m ↦ broke_off (rw same b) (rw same s) (rw same m)
  ]
]

apart : (a b : Bool) → a ≡ true → not (a && b) ≡ true → b ≡ false
apart true false h k = refl
apart true true h k = absurd (grind arith)
apart false b h k = absurd (grind arith)

-- After a line that breaks off, the next line is passed over, and it does not start with the key.
skipped :
    (core_id count : ℕ) (l l' : List ℕ) (ls : List (List ℕ))
    → breaks_off key l ≡ true
    → starts key l ≡ false
    → is_regular (l ∷ l' ∷ ls) ≡ true
    → speed_of core_id count (l ∷ l' ∷ ls) ≡ speed_of core_id count ls
skipped core_id count l l' ls b s regular =
    let other : starts key l' ≡ false =
      apart (breaks_off key l) (starts key l') b (and-true _ _ regular).0 in
    rw (s, other) refl

regular_tail : (l : List ℕ) (ls : List (List ℕ)) → is_regular (l ∷ ls) ≡ true → is_regular ls ≡ true
regular_tail l [] h = refl
regular_tail l (l' ∷ ls) h = (and-true _ _ h).1

is_line-drop : (n : ℕ) (l : List ℕ) → is_line l ≡ true → is_line (drop n l) ≡ true
is_line-drop zero l h = h
is_line-drop (suc n) [] h = refl
is_line-drop (suc n) (x ∷ l) h = is_line-drop n l (and-true _ _ h).1

find_speed-nil : (fuel core_id count : ℕ) → 0 < fuel → find_speed fuel core_id count [] ≡ missing
unfolding find_speed matches
find_speed-nil zero core_id count enough = absurd (omega arith)
find_speed-nil (suc fuel) core_id count enough = refl

-- A round of the loop that starts within a line, whose rest is t, and tests the line after it.
round :
    (fuel core_id count : ℕ) (t l : List ℕ) (ls : List (List ℕ))
    → is_line t ≡ true
    → is_line l ≡ true
    → ((n : ℕ) (u : List ℕ)
        → is_line u ≡ true
        → find_speed fuel core_id n (u ++ newline ∷ text ls) ≡ speed_of core_id n ls)
    → (breaks_off key l ≡ true
        → starts key l ≡ false
        → find_speed fuel core_id count (text ls) ≡ speed_of core_id count (l ∷ ls))
    → find_speed (suc fuel) core_id count (t ++ newline ∷ text (l ∷ ls))
      ≡ speed_of core_id count (l ∷ ls)
unfolding find_speed
round fuel core_id count t l ls ht line onward after =
    ap (λ xs. after_match core_id count (matches key xs) (find_speed fuel core_id))
      (ignore_line t (text (l ∷ ls)) ht)
    ∙ elim (match_line key l (text ls) refl line) [
      | matched s m ↦
          ap (λ r. after_match core_id count r (find_speed fuel core_id)) m
          ∙ rw s (
              ap
                (λ r.
                  if count == core_id
                  then found (ignore_until colon (drop 7 l ++ newline ∷ text ls))
                  else r)
                (onward (count + 1) (drop 7 l) (is_line-drop 7 l line)))
      | differed u hu s m ↦
          ap (λ r. after_match core_id count r (find_speed fuel core_id)) m
          ∙ rw s (onward count u hu)
      | broke_off b s m ↦
          ap (λ r. after_match core_id count r (find_speed fuel core_id)) m ∙ after b s
    ]

last_line :
    (fuel core_id count : ℕ) (t : List ℕ)
    → is_line t ≡ true
    → find_speed (suc fuel) core_id count (t ++ newline ∷ []) ≡ missing
unfolding find_speed matches
last_line fuel core_id count t ht =
    ap (λ xs. after_match core_id count (matches key xs) (find_speed fuel core_id))
      (ignore_line t [] ht)

-- The loop, from within a line on whose rest is t.
find_speed-lines :
    (fuel core_id count : ℕ) (t : List ℕ) (ls : List (List ℕ))
    → is_line t ≡ true
    → are_lines ls ≡ true
    → is_regular ls ≡ true
    → length ls < fuel
    → find_speed fuel core_id count (t ++ newline ∷ text ls) ≡ speed_of core_id count ls
find_speed-lines zero core_id count t ls ht hl regular enough = absurd (omega arith)
find_speed-lines (suc fuel) core_id count t [] ht hl regular enough =
    last_line fuel core_id count t ht
find_speed-lines (suc fuel) core_id count t (l ∷ []) ht hl regular enough =
    round fuel core_id count t l [] ht (and-true _ _ hl).0
      (λ n u hu. find_speed-lines fuel core_id n u [] hu refl refl (omega arith))
      (λ b s. find_speed-nil fuel core_id count (omega arith) ∙ rw s refl)
find_speed-lines (suc fuel) core_id count t (l ∷ l' ∷ ls) ht hl regular enough =
    let (line, lines) = and-true _ _ hl in
    let (line', lines') = and-true _ _ lines in
    round fuel core_id count t l (l' ∷ ls) ht line
      (λ n u hu.
        find_speed-lines fuel core_id n u (l' ∷ ls) hu lines (regular_tail l (l' ∷ ls) regular)
          (omega arith))
      (λ b s.
        find_speed-lines fuel core_id count l' ls line' lines'
          (regular_tail l' ls (regular_tail l (l' ∷ ls) regular)) (omega arith)
        ∙ sym (skipped core_id count l l' ls b s regular))

-- On a file of lines in which no line that starts with "cpu MHz" follows on a line that is empty or
-- breaks off within these words, as in /proc/cpuinfo, the loop comes to an end within as many rounds
-- as the file has lines, and finds the text after the colon of the line that starts with "cpu MHz" and
-- has `core_id` such lines before it, without regard to the first line of the file; it finds none
-- where there are not as many.
pub find_speed-eq :
    (core_id : ℕ) (first : List ℕ) (ls : List (List ℕ))
    → are_lines (first ∷ ls) ≡ true
    → is_regular ls ≡ true
    → find_speed (length ls + 1) core_id 0 (text (first ∷ ls)) ≡ speed_of core_id 0 ls
find_speed-eq core_id first ls h regular =
    find_speed-lines (length ls + 1) core_id 0 first ls (and-true _ _ h).0 (and-true _ _ h).1
      regular (omega arith)
