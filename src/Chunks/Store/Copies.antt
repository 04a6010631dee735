-- ===== src/Chunks/Store/Copies.antt =====
-- The copying loop of store.rs puts the bytes of a range together from the chunks of an archive.
use mathlib.Core.List.{append-nil, append_assoc}
use native.Mathlib.Decide.{dec_le}
use biei.Prelude.{
  ℕ, zero, suc, ◌+◌, ◌-◌, ◌*◌, ◌≤◌, ◌<◌, min, ◌≡◌, refl, sym, ap, ◌∙◌, ◌⊎◌, inl, inr, arith, true,
  false, List, ◌++◌, some, ok, ltb, nat_Eq, lookup, length, take, drop, take-drop-append,
  take-drop-take-drop, length-take-drop, u64_mod, le→ltb, lt→ltb,
}
use biei.Chunks.Store.{Bytes, slice, indices, copy_chunks}

-- Chunk `index` of an archive; the last chunk may be short.
abbrev pub chunk_of : Bytes → ℕ → ℕ → Bytes
chunk_of archive chunk_size index = take chunk_size (drop (index * chunk_size) archive)

pub suc-mul : (n m : ℕ) → suc n * m ≡ n * m + m
suc-mul n m = grind arith

pub add-one_mul : (n m : ℕ) → (n + 1) * m ≡ n * m + m
add-one_mul n m = grind arith

-- The second part is empty, or it starts where the first one ends.
joined :
    (n m p q : ℕ) (xs : Bytes)
    → (m ≡ 0) ⊎ (q ≡ p + n)
    → take n (drop p xs) ++ take m (drop q xs) ≡ take (n + m) (drop p xs)
joined n m p q xs (inl e) =
    let sum : n + m ≡ n = omega arith in rw (sum, e) (append-nil (take n (drop p xs)))
joined n m p q xs (inr e) = rw e (take-drop-append n m p xs)

module _ (archive : Bytes) (chunk_size : ℕ) (chunks : List (ℕ × Bytes)) where
  -- The chunks of a span are in the map.
  abbrev pub HasChunks : ℕ → ℕ → Type 0
  HasChunks i count =
      (j : ℕ) → i ≤ j → j < i + count → lookup j chunks ≡ some (chunk_of archive chunk_size j)

  pub copy_chunks-slice :
      (count i remaining offset : ℕ) (out : Bytes)
      → length archive < u64_mod
      → HasChunks i count
      → offset ≤ chunk_size
      → offset ≤ length archive - i * chunk_size
      → remaining ≤ length archive - (i * chunk_size + offset)
      → offset + remaining ≤ count * chunk_size
      → copy_chunks chunks (indices i count) remaining offset out
        ≡ ok (out ++ take remaining (drop (i * chunk_size + offset) archive))
  unfolding copy_chunks
  copy_chunks-slice zero i remaining offset out small has h1 h2 h3 h4 =
      let none_left : remaining ≡ 0 = omega arith in rw none_left (ap ok (sym (append-nil out)))
  copy_chunks-slice (suc count) i remaining offset out small has h1 h2 h3 h4 =
      let chunk = chunk_of archive chunk_size i in
      let len : length chunk ≡ min chunk_size (length archive - i * chunk_size) =
        length-take-drop chunk_size (i * chunk_size) archive in
      let n = min remaining (length chunk - offset) in
      let here : lookup i chunks ≡ some chunk = has i (omega arith) (omega arith) in
      let within : ltb (length chunk) offset ≡ false = le→ltb (length chunk) offset (omega arith) in
      let fits : ltb (offset + n) u64_mod ≡ true = lt→ltb (offset + n) u64_mod (omega arith) in
      let counted : suc count * chunk_size ≡ count * chunk_size + chunk_size =
        suc-mul count chunk_size in
      let next : (i + 1) * chunk_size ≡ i * chunk_size + chunk_size = add-one_mul i chunk_size in
      let rest =
        copy_chunks-slice count (i + 1) (remaining - n) 0 (out ++ slice chunk offset (offset + n))
          small (λ j low high. has j (omega arith) (omega arith)) (omega arith) (omega arith)
          (omega arith) (omega arith) in
      let step : copy_chunks chunks (indices i (suc count)) remaining offset out
          ≡ copy_chunks chunks (indices (i + 1) count) (remaining - n) 0
              (out ++ slice chunk offset (offset + n)) =
        rw (here, copy_chunks, within, fits) refl in
      let cancel : offset + n - offset ≡ n = omega arith in
      let part : slice chunk offset (offset + n) ≡ take n (drop (i * chunk_size + offset) archive) =
        ap (λ t. take t (drop offset chunk)) cancel
        ∙ take-drop-take-drop n offset chunk_size (i * chunk_size) archive (omega arith) in
      let whole : n + (remaining - n) ≡ remaining = omega arith in
      let place : (remaining - n ≡ 0) ⊎ ((i + 1) * chunk_size + 0 ≡ i * chunk_size + offset + n) =
        elim (dec_le remaining (length chunk - offset)) [
          | yes le ↦ inl (omega arith)
          | no gt ↦ inr (omega arith)
        ] in
      step
      ∙ rest
      ∙ ap (λ l. ok l)
          (append_assoc out (slice chunk offset (offset + n)) _
            ∙ ap (λ l. out ++ l)
                (ap (λ l. l ++ take (remaining - n) (drop ((i + 1) * chunk_size + 0) archive)) part
                  ∙ joined n (remaining - n) (i * chunk_size + offset) ((i + 1) * chunk_size + 0)
                      archive place
                  ∙ ap (λ t. take t (drop (i * chunk_size + offset) archive)) whole))
