-- ===== src/Pmtiles/Reader/Contract.antt =====
-- What holds of a run of the reader: it ends, an invariant of the backend's state is kept, and its
-- value has a property.
use biei.Prelude.{◌≡◌, refl, Option, none, some, Result, ok, err}
use biei.Pmtiles.Error.{Error}
use biei.Pmtiles.Reader.{Run, ◌>>=◌, lift}

module _ {S E : Type 0} (P : S → Type 0) where
  -- A run that ran out of fuel meets no contract.
  abbrev pub Post : {A : Type 0} → (A → Type 0) → Option (S × Result E A) → Type 0
  Post Q none = ⊥
  Post Q (some (s, ok a)) = P s × Q a
  Post Q (some (s, err e)) = P s

  pub Post->>= :
      {A B : Type 0} (Q : A → Type 0) (R : B → Type 0) (m : Run S E A) (f : A → Run S E B) (s : S)
      → Post Q (m s)
      → ((a : A) (s' : S) → P s' → Q a → Post R (f a s'))
      → Post R ((m >>= f) s)
  Post->>= {A} {B} Q R m f s h next = go (m s) h
    where
      first : Option (S × Result E A) → Run S E A
      first o s0 = o

      then : Option (S × Result E A) → Option (S × Result E B)
      then o = (first o >>= f) s

      go : (o : Option (S × Result E A)) → Post Q o → Post R (then o)
      go none h' = h'
      go (some (s', ok a)) h' = next a s' h'.0 h'.1
      go (some (s', err e)) h' = h'

  pub Post-lift :
      {A : Type 0} (to : Error → E) (r : Result Error A) (s : S)
      → P s
      → Post (λ a. r ≡ ok a) (lift to r s)
  Post-lift to (ok a) s p = (p, refl)
  Post-lift to (err e) s p = p

  pub Post-call : {A : Type 0} (o : S × Result E A) → P o.0 → Post {A = A} (λ a. Unit {0}) (some o)
  Post-call (s, ok a) p = (p, tt)
  Post-call (s, err e) p = p
