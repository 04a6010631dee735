-- ===== src/CacheControl/Tokens.antt =====
-- What `Directives` of cache_control.rs makes of texts that are joined by commas. The length of the
-- text is enough rounds.
use biei.Prelude.{
  ℕ, zero, suc, ◌≤◌, ◌≡◌, refl, sym, ◌∙◌, ap, arith, Bool, true, false, ◌==◌, if◌then◌else◌, List,
  [], ◌∷◌, ◌++◌, length, take, drop, length-drop,
}
use biei.CacheControl.{
  quote, backslash, comma, is_empty, Directive, boundary, trim, put_token, collect_directives,
  directives,
}

collect_directives-enough :
    (n k : ℕ) (value : List ℕ)
    → length value ≤ n
    → length value ≤ k
    → collect_directives n value ≡ collect_directives k value
unfolding collect_directives
collect_directives-enough n k [] h g = refl
collect_directives-enough zero k (c ∷ rest) h g = absurd (omega arith)
collect_directives-enough (suc n) zero (c ∷ rest) h g = absurd (omega arith)
collect_directives-enough (suc n) (suc k) (c ∷ rest) h g =
    let end = boundary false false (c ∷ rest) in
    let shorter = length-drop end rest in
    ap (put_token (trim (take end (c ∷ rest))))
      (collect_directives-enough n k (drop end rest) (omega arith) (omega arith))

-- One round of the iterator.
directives-unroll :
    (c : ℕ) (rest : List ℕ)
    → let end = boundary false false (c ∷ rest) in
      directives (c ∷ rest)
      ≡ put_token (trim (take end (c ∷ rest))) (directives (drop (suc end) (c ∷ rest)))
unfolding directives collect_directives
directives-unroll c rest =
    let end = boundary false false (c ∷ rest) in
    let shorter = length-drop end rest in
    ap (put_token (trim (take end (c ∷ rest)))) (
      collect_directives-enough (length rest) (length (drop end rest)) (drop end rest) (omega arith)
        (omega arith))

-- A text whose quotes are closed, with no comma outside them: `true` is inside quotes, where a
-- backslash escapes the next character.
pub data IsItem : Bool → List ℕ → Type 0 where
  ends : IsItem false []
  plain :
      (c : ℕ) (rest : List ℕ)
      → (c == quote) ≡ false
      → (c == comma) ≡ false
      → IsItem false rest
      → IsItem false (c ∷ rest)
  opens : (rest : List ℕ) → IsItem true rest → IsItem false (quote ∷ rest)
  closes : (rest : List ℕ) → IsItem false rest → IsItem true (quote ∷ rest)
  escapes : (c : ℕ) (rest : List ℕ) → IsItem true rest → IsItem true (backslash ∷ c ∷ rest)
  inner :
      (c : ℕ) (rest : List ℕ)
      → (c == backslash) ≡ false
      → (c == quote) ≡ false
      → IsItem true rest
      → IsItem true (c ∷ rest)

-- What may come after an item: nothing, or a comma and more.
abbrev IsEnd : List ℕ → Type 0
IsEnd [] = Unit {0}
IsEnd (c ∷ rest) = c ≡ comma

boundary-end : (more : List ℕ) → IsEnd more → boundary false false more ≡ 0
unfolding boundary
boundary-end [] h = refl
boundary-end (c ∷ rest) h = rw h refl

boundary-item :
    (quoted : Bool) (text more : List ℕ)
    → IsItem quoted text
    → IsEnd more
    → boundary quoted false (text ++ more) ≡ length text
unfolding boundary
boundary-item quoted text more ends e = boundary-end more e
boundary-item quoted text more (plain c rest q k h) e =
    rw (q, k) (ap suc (boundary-item false rest more h e))
boundary-item quoted text more (opens rest h) e = ap suc (boundary-item true rest more h e)
boundary-item quoted text more (closes rest h) e = ap suc (boundary-item false rest more h e)
boundary-item quoted text more (escapes c rest h) e =
    ap (λ n. suc (suc n)) (boundary-item true rest more h e)
boundary-item quoted text more (inner c rest b q h) e =
    rw (b, q) (ap suc (boundary-item true rest more h e))

take-item : (xs ys : List ℕ) → take (length xs) (xs ++ ys) ≡ xs
take-item [] ys = refl
take-item (x ∷ xs) ys = ap (λ l. x ∷ l) (take-item xs ys)

drop-item : (xs ys : List ℕ) → drop (suc (length xs)) (xs ++ ys) ≡ drop 1 ys
drop-item [] ys = refl
drop-item (x ∷ xs) ys = drop-item xs ys

append_nil : (xs : List ℕ) → xs ++ [] ≡ xs
append_nil [] = refl
append_nil (x ∷ xs) = ap (λ l. x ∷ l) (append_nil xs)

directives-item :
    (c : ℕ) (rest more : List ℕ)
    → IsItem false (c ∷ rest)
    → IsEnd more
    → directives ((c ∷ rest) ++ more) ≡ put_token (trim (c ∷ rest)) (directives (drop 1 more))
directives-item c rest more h e =
    let end = boundary false false (c ∷ (rest ++ more)) in
    let at : end ≡ length (c ∷ rest) = boundary-item false (c ∷ rest) more h e in
    directives-unroll c (rest ++ more)
    ∙ ap
        (λ n.
          put_token (trim (take n (c ∷ (rest ++ more))))
            (directives (drop (suc n) (c ∷ (rest ++ more)))))
        at
    ∙ ap
        (λ l. put_token (trim l) (directives (drop (suc (length (c ∷ rest))) (c ∷ (rest ++ more)))))
        (take-item (c ∷ rest) more)
    ∙ ap (λ l. put_token (trim (c ∷ rest)) (directives l)) (drop-item (c ∷ rest) more)

directives-single :
    (c : ℕ) (rest : List ℕ)
    → IsItem false (c ∷ rest)
    → directives (c ∷ rest) ≡ put_token (trim (c ∷ rest)) []
unfolding directives collect_directives
directives-single c rest h =
    ap directives (sym (append_nil (c ∷ rest))) ∙ directives-item c rest [] h tt

put_token-append :
    (token : List ℕ) (later : List Directive) → put_token token later ≡ put_token token [] ++ later
put_token-append [] later = refl
put_token-append (c ∷ rest) later = refl

length-put_token :
    (token : List ℕ) → length (put_token token []) ≡ (if is_empty token then 0 else 1)
length-put_token [] = refl
length-put_token (c ∷ rest) = refl

-- For a text whose quotes are closed and that has no comma outside them, quotes that are escaped by
-- a backslash inside quotes not counting: the directives of the text, a comma and more are those of
-- the text followed by those of the rest, and the text alone has exactly one directive, or none
-- where it is blank.
pub directives-append :
    (text more : List ℕ)
    → IsItem false text
    → (directives (text ++ (comma ∷ more)) ≡ directives text ++ directives more)
      × (length (directives text) ≡ (if is_empty (trim text) then 0 else 1))
unfolding directives collect_directives boundary trim
directives-append [] more h = (directives-unroll comma more, refl)
directives-append (c ∷ rest) more h =
    let single = directives-single c rest h in
    (
      directives-item c rest (comma ∷ more) h refl
          ∙ put_token-append (trim (c ∷ rest)) (directives more)
          ∙ ap (λ l. l ++ directives more) (sym single),
      ap length single ∙ length-put_token (trim (c ∷ rest)),
    )
