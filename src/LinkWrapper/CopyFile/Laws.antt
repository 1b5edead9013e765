-- ===== src/LinkWrapper/CopyFile/Laws.antt =====
-- What `copy_file` leaves.
use hermetic_llvm.LinkWrapper.CopyFile.{
  Streams, copy_loop, copy_file, copy_chunk, close_both, put, closed_text, Files,
}
use hermetic_llvm.Bytes.{Bytes, str_eq, strcmp_refl}
use hermetic_llvm.Prelude.{
  ℕ, zero, suc, ◌≤◌, ◌<◌, ◌≡◌, refl, sym, ap, ◌∙◌, ◌≢◌, ◌⊎◌, inl, inr, true, false, not, ◌||◌,
  Option, none, some, [], ◌++◌, append_assoc, arith, Bool-cases, Option-cases, length, take, drop,
  ◌==◌, take_short, take-drop, length-drop,
}

chunk_goes_on :
    (size : ℕ) (s : Streams) (index : ℕ) (rest : Bytes)
    → (copy_chunk size s index rest).1 ≡ none
    → ((copy_chunk size s index rest).0 ≡ take size rest) × (size ≤ length (take size rest))
unfolding copy_chunk
chunk_goes_on size s index rest e = ground arith

chunk_is_last :
    (size : ℕ) (s : Streams) (index : ℕ) (rest : Bytes)
    → (copy_chunk size s index rest).1 ≡ some 0
    → (copy_chunk size s index rest).0 ≡ rest
unfolding copy_chunk
chunk_is_last size s index rest e = ground (arith, take_short size rest)

module _ (size : ℕ) (s : Streams) where
  -- A copy that ends with 0 has written everything.
  copy_loop-exact :
      (fuel index : ℕ) (rest written out : Bytes)
      → copy_loop fuel size s index rest written ≡ some (out, 0)
      → out ≡ written ++ rest
  unfolding copy_loop
  copy_loop-exact zero index rest written out e = absurd (ground arith)
  copy_loop-exact (suc fuel) index rest written out e =
      elim (Option-cases (copy_chunk size s index rest).1) [
        | inl more ↦
            let c = chunk_goes_on size s index rest more in
            let chunk = (copy_chunk size s index rest).0 in
            let ih =
              copy_loop-exact fuel (suc index) (drop size rest) (written ++ chunk) out
                (ground arith) in
            ih
            ∙ append_assoc written chunk (drop size rest)
            ∙ ap (◌++◌ written) (ap (λ c. c ++ drop size rest) c.0 ∙ take-drop size rest)
        | inr (status, last) ↦
            let zeroed : status ≡ 0 = ground arith in
            let c = chunk_is_last size s index rest (last ∙ ap some zeroed) in
            let o : out ≡ written ++ (copy_chunk size s index rest).0 = ground arith in
            o ∙ ap (◌++◌ written) c
      ]

  -- One unit of fuel for each byte, and one more, is enough.
  copy_loop-ends :
      (fuel index : ℕ) (rest written : Bytes)
      → 0 < size
      → length rest < fuel
      → (out : Bytes) × (status : ℕ) × (copy_loop fuel size s index rest written
          ≡ some (out, status))
  unfolding copy_loop
  copy_loop-ends zero index rest written positive h = absurd (omega arith)
  copy_loop-ends (suc fuel) index rest written positive h =
      let chunk = (copy_chunk size s index rest).0 in
      elim (Option-cases (copy_chunk size s index rest).1) [
        | inl more ↦
            let c = chunk_goes_on size s index rest more in
            let (out, status, e) =
              copy_loop-ends fuel (suc index) (drop size rest) (written ++ chunk) positive
                (omega (arith, length-drop size rest, c.1)) in
            (out, status, ground arith)
        | inr (status, last) ↦ (written ++ chunk, status, ground arith)
      ]

pub copy_file_ends :
    (size : ℕ) (s : Streams) (source destination : Bytes) (files : Files)
    → 0 < size
    → (r : ℕ × Files) × (copy_file size s source destination files ≡ some r)
unfolding copy_file
copy_file_ends size s source destination files positive = elim (Option-cases (files source)) [
  | inl absent ↦ ((1, files), rw (copy_file, absent) refl)
  | inr (old, found) ↦
      elim (Bool-cases (not (s.opens_source source) || not (s.opens_destination destination))) [
        | inl shut ↦ ((1, files), rw (copy_file, found, shut) refl)
        | inr opened ↦
            let truncated = put files destination (some []) in
            elim (Option-cases (truncated source)) [
              | inl gone ↦ ((1, truncated), rw (copy_file, found, opened, gone) refl)
              | inr (content, there) ↦
                  let (out, status, e) =
                    copy_loop-ends size s (suc (length content)) 0 content [] positive
                      (omega arith) in
                  (
                    close_both s truncated destination out status,
                    rw (copy_file, found, opened, there, e) refl,
                  )
            ]
      ]
]

put_self : (files : Files) (path : Bytes) (o : Option Bytes) → put files path o path ≡ o
unfolding put
put_self files path o = ground (arith, strcmp_refl path)

put_other :
    (files : Files) (path p : Bytes) (o : Option Bytes)
    → str_eq p path ≡ false
    → put files path o p ≡ files p
unfolding put
put_other files path p o h = rw h refl

module _ (s : Streams) (files : Files) (path written : Bytes) (status : ℕ) where
  close_both_zero :
      (close_both s files path written status).0 ≡ 0
      → (status ≡ 0) × ((close_both s files path written status).1 ≡ put files path (some written))
  unfolding close_both closed_text
  close_both_zero e = elim (Option-cases s.closes_destination) [
    | inl kept ↦ ground arith
    | inr (n, lost) ↦ absurd (ground arith)
  ]

  close_both_failed :
      (close_both s files path written status).0 ≢ 0
      → s.removes path ≡ true
      → (close_both s files path written status).1 path ≡ none
  unfolding close_both
  close_both_failed e r =
      ground (arith, put_self (put files path (some (closed_text s written))) path none)

  close_both_other :
      (p : Bytes) → str_eq p path ≡ false → (close_both s files path written status).1 p ≡ files p
  unfolding close_both
  close_both_other p h = ground (
    arith,
    put_other (put files path (some (closed_text s written))) path p none h,
    put_other files path p (some (closed_text s written)) h,
  )

copy_file_ended :
    (size : ℕ) (s : Streams) (source destination : Bytes) (files : Files)
    → 0 < size
    → str_eq source destination ≡ false
    → (status : ℕ) × (left : Files) × (copy_file size s source destination files
        ≡ some (status, left))
      × (status ≡ 0 → left destination ≡ files source)
      × (status ≢ 0 → s.removes destination ≡ true → (left destination ≡ none) ⊎ (left ≡ files))
      × ((p : Bytes) → str_eq p destination ≡ false → left p ≡ files p)
unfolding copy_file
copy_file_ended size s source destination files positive other =
    elim (Option-cases (files source)) [
      | inl absent ↦ (1, files, ground arith, ground arith, (λ a b. inr refl), (λ p h. refl))
      | inr (content, found) ↦
          elim (Bool-cases (not (s.opens_source source) || not (s.opens_destination destination))) [
            | inl shut ↦ (1, files, ground arith, ground arith, (λ a b. inr refl), (λ p h. refl))
            | inr opened ↦
                let truncated = put files destination (some []) in
                let unchanged : truncated source ≡ some content =
                  put_other files destination source (some []) other ∙ found in
                let (out, status, e) =
                  copy_loop-ends size s (suc (length content)) 0 content [] positive
                    (omega arith) in
                let result = close_both s truncated destination out status in
                (
                  result.0,
                  result.1,
                  ground arith,
                  λ z.
                      let c = close_both_zero s truncated destination out status z in
                      let exact =
                        copy_loop-exact size s (suc (length content)) 0 content [] out
                          (e ∙ ap (λ n. some (out, n)) c.0) in
                      ap (λ (f : Files). f destination) c.1
                      ∙ put_self truncated destination (some out)
                      ∙ ap some exact
                      ∙ sym found,
                  λ nz r. inl (close_both_failed s truncated destination out status nz r),
                  λ p h.
                      close_both_other s truncated destination out status p h
                      ∙ put_other files destination p (some []) h,
                )
          ]
    ]

-- `copy_file` always ends, in one of two ways: it returns 0 and the destination holds what the source
-- held; or it does not, and the failed destination could not be removed, is gone, or nothing has
-- changed. No other file changes. Source and destination are different paths.
pub copy_file_lem :
    (size : ℕ) (s : Streams) (source destination : Bytes) (files : Files)
    → 0 < size
    → str_eq source destination ≡ false
    → (status : ℕ) × (left : Files) × (copy_file size s source destination files
        ≡ some (status, left))
      × (((status ≡ 0) × (left destination ≡ files source))
          ⊎ ((status ≢ 0)
              × ((s.removes destination ≡ false) ⊎ ((left destination ≡ none) ⊎ (left ≡ files)))))
      × ((p : Bytes) → (str_eq p destination ≡ true) ⊎ (left p ≡ files p))
copy_file_lem size s source destination files positive other =
    let (status, left, e, good, bad, same) =
      copy_file_ended size s source destination files positive other in
    (
      status,
      left,
      e,
      (elim (Bool-cases (status == 0)) [
        | inl y ↦ let z : status ≡ 0 = ground arith in inl (z, good z)
        | inr n ↦
            let z : status ≢ 0 = λ h. absurd (ground arith) in
            elim (Bool-cases (s.removes destination)) [
              | inl r ↦ inr (z, inr (bad z r))
              | inr r ↦ inr (z, inl r)
            ]
      ]),
      λ p. elim (Bool-cases (str_eq p destination)) [ inl y ↦ inl y | inr n ↦ inr (same p n) ],
    )
