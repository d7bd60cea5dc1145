-- ===== src/Files/Transfer.antt =====
-- What `Write`, `Read` and `FillFile` come to, for a system that transfers a part of what is asked
-- for at a time, and may be interrupted.
use mathlib.Core.List.{append-nil}
use cpp_autotime.Prelude.{
  ℕ, ◌≤◌, ◌<◌, ◌≡◌, ◌∙◌, true, false, Bool-cases, inl, inr, ◌⊎◌, List, [], ◌++◌, arith,
}
use cpp_autotime.Prelude.Int.{ℤ, pos, pos_part, ltb_ℤ}
use cpp_autotime.Prelude.Lists.{length, take}
use cpp_autotime.Files.Calls.{Result, done, thrown, out_of_bounds, unfinished, Posix}
use cpp_autotime.Files.{write_some, is_interrupted}

-- What is documented of `write` on a descriptor, where `content` are the bytes written to it: it
-- writes a part of the buffer from its start on and gives its length, or writes nothing. `patience`
-- is an upper bound of the calls to come that write nothing and do not fail for good.
pub record IsWriting {S : Type 0} (os : Posix S) (fd : ℤ) (content : S → List ℕ) (patience : S → ℕ)
    : Type 0 where
  pub writes :
      (buf : List ℕ) (s : S)
      → (pos_part (os.write_fd fd buf s).0 ≤ length buf)
        × (content (os.write_fd fd buf s).1
            ≡ content s ++ take (pos_part (os.write_fd fd buf s).0) buf)
  pub patient : (buf : List ℕ) (s : S) → patience (os.write_fd fd buf s).1 ≤ patience s
  pub moves :
      (buf : List ℕ) (s : S)
      → 0 < length buf
      → pos_part (os.write_fd fd buf s).0 ≡ 0
      → ltb_ℤ (os.write_fd fd buf s).0 (pos 0) ≡ false
        ⊎ is_interrupted os (os.write_fd fd buf s).1 ≡ true
      → patience (os.write_fd fd buf s).1 < patience s

module _ {S : Type 0} (os : Posix S) (fd : ℤ) (content : S → List ℕ) (patience : S → ℕ)
    (laws : IsWriting os fd content patience) where
  -- What `WriteSome` comes to.
  abbrev pub Wrote : List ℕ → S → Result S ℕ → Type 0
  Wrote buf s (done n s') =
      (n ≤ length buf)
      × (content s' ≡ content s ++ take n buf)
      × (patience s' ≤ patience s)
      × (0 < length buf → n ≡ 0 → patience s' < patience s)
  Wrote buf s (thrown what code s') = content s' ≡ content s
  Wrote buf s out_of_bounds = ⊥
  Wrote buf s unfinished = ⊥

  pub write_some-Wrote : (buf : List ℕ) (s : S) → Wrote buf s (write_some os fd buf s)
  unfolding write_some
  write_some-Wrote buf s =
      let (fits, adds) = laws.writes buf s in
      elim (Bool-cases (ltb_ℤ (os.write_fd fd buf s).0 (pos 0))) [
        | inr wrote ↦ rw wrote (
          fits,
          adds,
          laws.patient buf s,
          λ some_bytes none_written. laws.moves buf s some_bytes none_written (inl wrote),
        )
        | inl failed ↦
            let nothing : pos_part (os.write_fd fd buf s).0 ≡ 0 = ground arith in
            let same : content (os.write_fd fd buf s).1 ≡ content s ++ [] = rw nothing at adds in
            elim (Bool-cases (is_interrupted os (os.write_fd fd buf s).1)) [
              | inl soon ↦
                  rw (failed, soon)
                    (
                      omega arith,
                      same,
                      laws.patient buf s,
                      λ some_bytes none_written. laws.moves buf s some_bytes nothing (inr soon),
                    )
              | inr error ↦ rw (failed, error) (same ∙ append-nil (content s))
            ]
      ]

  -- What `Write` comes to: all of the buffer is written, or the call that threw follows after a part of it.
  abbrev pub Written : List ℕ → List ℕ → Result S Unit → Type 0
  Written base buf (done u s') = content s' ≡ base ++ buf
  Written base buf (thrown what code s') =
      (k : ℕ) × (k ≤ length buf) × (content s' ≡ base ++ take k buf)
  Written base buf out_of_bounds = ⊥
  Written base buf unfinished = ⊥
