-- ===== src/Protocol/Bytes/Writes.antt =====
-- Stores one after the other fill the front of a buffer and leave the rest of it alone.
use qoe_test_harness.Prelude.{
  ℕ, zero, suc, ◌+◌, ◌≤◌, ◌≡◌, refl, ap, ◌∙◌, List, [], ◌∷◌, ◌++◌, length, drop, arith,
  append_assoc, sym, length-append, length-drop, drop-drop,
}
use qoe_test_harness.Protocol.Bytes.{overlay, write}

pub overlay-eq :
    (xs bs : List ℕ) → length bs ≤ length xs → overlay xs bs ≡ bs ++ drop (length bs) xs
overlay-eq xs [] h = refl
overlay-eq [] (b ∷ bs) h = absurd (omega arith)
overlay-eq (x ∷ xs) (b ∷ bs) h = ap (λ t. b ∷ t) (overlay-eq xs bs (omega arith))

-- A store right behind what has been written.
pub write_next :
    (front rest bs : List ℕ)
    → length bs ≤ length rest
    → write (front ++ rest) (length front) bs ≡ front ++ (bs ++ drop (length bs) rest)
write_next [] rest bs h = overlay-eq rest bs h
write_next (x ∷ front) rest bs h = ap (λ t. x ∷ t) (write_next front rest bs h)

pub length-overlay : (xs bs : List ℕ) → length (overlay xs bs) ≡ length xs
length-overlay [] [] = refl
length-overlay (x ∷ xs) [] = refl
length-overlay [] (b ∷ bs) = refl
length-overlay (x ∷ xs) (b ∷ bs) = ap suc (length-overlay xs bs)

-- A store never makes a buffer longer or shorter.
pub length-write : (xs : List ℕ) (o : ℕ) (bs : List ℕ) → length (write xs o bs) ≡ length xs
length-write xs zero bs = length-overlay xs bs
length-write [] (suc o) bs = refl
length-write (x ∷ xs) (suc o) bs = ap suc (length-write xs o bs)

abbrev pub flat : List (List ℕ) → List ℕ
flat [] = []
flat (bs ∷ bss) = bs ++ flat bss

-- Stores one behind the other, the first at `o`.
abbrev pub writes : List ℕ → ℕ → List (List ℕ) → List ℕ
writes dst o [] = dst
writes dst o (bs ∷ bss) = writes (write dst o bs) (o + length bs) bss

pub writes_from :
    (bss : List (List ℕ)) (front rest : List ℕ)
    → length (flat bss) ≤ length rest
    → writes (front ++ rest) (length front) bss
      ≡ front ++ (flat bss ++ drop (length (flat bss)) rest)
writes_from [] front rest h = refl
writes_from (bs ∷ bss) front rest h =
    let fits : length bs + length (flat bss) ≤ length rest =
      omega (arith, length-append bs (flat bss)) in
    ap (λ d. writes d (length front + length bs) bss)
      (write_next front rest bs (omega arith) ∙ sym (append_assoc front bs _))
    ∙ ap (λ o. writes ((front ++ bs) ++ drop (length bs) rest) o bss) (sym (length-append front bs))
    ∙ writes_from bss (front ++ bs) (drop (length bs) rest)
        (omega (arith, length-drop (length bs) rest))
    ∙ regroup front bs (flat bss) rest
  where
    regroup :
        (front bs more rest : List ℕ)
        → (front ++ bs) ++ (more ++ drop (length more) (drop (length bs) rest))
          ≡ front ++ ((bs ++ more) ++ drop (length (bs ++ more)) rest)
    regroup front bs more rest = rw (drop-drop, length-append, append_assoc, append_assoc) refl

-- Stores that follow one another from the start of a buffer replace its front.
pub writes-eq :
    (bss : List (List ℕ)) (dst : List ℕ)
    → length (flat bss) ≤ length dst
    → writes dst 0 bss ≡ flat bss ++ drop (length (flat bss)) dst
writes-eq bss dst h = writes_from bss [] dst h
