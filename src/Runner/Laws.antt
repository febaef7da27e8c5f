-- ===== src/Runner/Laws.antt =====
-- What the handshake and the arguments of the runner come to.
use etok.Base.{
  ℕ, zero, suc, ◌+◌, ◌-◌, ◌≤◌, ◌<◌, ◌≡◌, refl, sym, ap, ◌∙◌, true, none, List, [], ◌∷◌, ◌++◌, arith,
  nat_eq, length, take, length-append, Bool-cases, inl, inr,
}
use etok.Runner.{
  ReadEnd, Received, complete, broken, timed_out, read_loop, handshake_string, same_bytes,
  check_handshake, receive_handshake,
}

-- All bytes that the reads deliver.
abbrev pub delivered : List (List ℕ × ReadEnd) → List ℕ
delivered [] = []
delivered ((bytes, end) ∷ reads) = bytes ++ delivered reads

same_bytes-path : (a b : List ℕ) → same_bytes a b ≡ true → a ≡ b
unfolding same_bytes
same_bytes-path [] [] h = refl
same_bytes-path [] (y ∷ b) h = cc
same_bytes-path (x ∷ a) [] h = cc
same_bytes-path (x ∷ a) (y ∷ b) h = ground (arith, same_bytes-path a b)

append_assoc : (xs ys zs : List ℕ) → (xs ++ ys) ++ zs ≡ xs ++ (ys ++ zs)
append_assoc [] ys zs = refl
append_assoc (x ∷ xs) ys zs = ap (λ l. x ∷ l) (append_assoc xs ys zs)

take-append :
    (k : ℕ) (bytes more : List ℕ)
    → length (take k bytes) ≡ k
    → take k (bytes ++ more) ≡ take k bytes
take-append zero bytes more e = refl
take-append (suc k) [] more e = absurd (omega (arith, e))
take-append (suc k) (b ∷ bytes) more e =
    ap (λ l. b ∷ l) (take-append k bytes more (omega (arith, e)))

-- A buffer that is filled from the bytes that follow it.
take-filled :
    (k n : ℕ) (buf bytes more : List ℕ)
    → k + length buf ≡ n
    → length (take k bytes) ≡ k
    → take n (buf ++ (bytes ++ more)) ≡ buf ++ take k bytes
take-filled k n [] bytes more h e =
    let same : n ≡ k = omega (arith, h) in rw same (take-append k bytes more e)
take-filled k zero (x ∷ buf) bytes more h e = absurd (omega (arith, h))
take-filled k (suc n) (x ∷ buf) bytes more h e =
    ap (λ l. x ∷ l) (take-filled k n buf bytes more (omega (arith, h)) e)

length-take : (k : ℕ) (bytes : List ℕ) → length (take k bytes) ≤ k
length-take zero bytes = omega arith
length-take (suc k) [] = omega arith
length-take (suc k) (b ∷ bytes) = omega (arith, length-take k bytes)

take-all : (k : ℕ) (bytes : List ℕ) → length (take k bytes) < k → take k bytes ≡ bytes
take-all zero bytes h = absurd (omega (arith, h))
take-all (suc k) [] h = refl
take-all (suc k) (b ∷ bytes) h = ap (λ l. b ∷ l) (take-all k bytes (omega (arith, h)))

read_loop-complete :
    (n : ℕ) (buf : List ℕ) (reads : List (List ℕ × ReadEnd)) {b : List ℕ}
    → length buf < n
    → read_loop n buf reads ≡ complete b
    → take n (buf ++ delivered reads) ≡ b
unfolding read_loop
read_loop-complete n buf [] h e = absurd (ground arith)
read_loop-complete n buf ((bytes, end) ∷ reads) {b} h e =
    let k = n - length buf in
    let l = length-append buf (take k bytes) in
    elim (Bool-cases (nat_eq (length (buf ++ take k bytes)) n)) [
      | inl full ↦
          let size : length (buf ++ take k bytes) ≡ n = ground (arith, full) in
          let e' : buf ++ take k bytes ≡ b = ground (arith, full, e) in
          take-filled k n buf bytes (delivered reads) (omega (arith, h)) (omega (arith, l, size, h))
          ∙ e'
      | inr open' ↦
          let size : length (buf ++ take k bytes) < n =
            ground (arith, open', l, length-take k bytes, h) in
          let all : take k bytes ≡ bytes = take-all k bytes (omega (arith, l, size, h)) in
          let e' : read_loop n (buf ++ take k bytes) reads ≡ complete b =
            ground (arith, open', e) in
          let rest = read_loop-complete n (buf ++ take k bytes) reads size e' in
          ap (λ x. take n x) (sym (append_assoc buf bytes (delivered reads)))
          ∙ (ap (λ x. take n ((buf ++ x) ++ delivered reads)) (sym all) ∙ rest)
    ]

-- When the handshake is accepted, the first bytes delivered on standard input are the handshake
-- string, however they are divided into reads.
pub receive_handshake-delivered :
    (reads : List (List ℕ × ReadEnd))
    → receive_handshake reads ≡ none
    → take (length handshake_string) (delivered reads) ≡ handshake_string
unfolding receive_handshake
receive_handshake-delivered reads e = accepted (read_loop (length handshake_string) [] reads) refl e
  where
    accepted :
        (r : Received)
        → read_loop (length handshake_string) [] reads ≡ r
        → check_handshake r ≡ none
        → take (length handshake_string) (delivered reads) ≡ handshake_string
    accepted (complete b) p q =
        read_loop-complete (length handshake_string) [] reads (omega arith) p
        ∙ same_bytes-path b handshake_string (ground (arith, q))
    accepted (broken x) p q = absurd (ground arith)
    accepted timed_out p q = absurd (ground arith)
