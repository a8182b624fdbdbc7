-- ===== src/Streams/StdCopy/Buffers.antt =====
-- What a buffer holds when it has been filled from a reader.
use docker.Common.{
  ℕ, zero, suc, ◌-◌, ◌≤◌, ◌<◌, ◌≡◌, ◌∙◌, refl, sym, ap, subst, true, false, inl, inr, List, [], ◌∷◌,
  ◌++◌, length, take, drop, length-append, append_nil, append_assoc, leb, arith, Bool-cases,
}
use docker.Streams.StdCopy.{Bytes, Filled, filled, ended, fill}

abbrev pub concat : List Bytes → Bytes
concat [] = []
concat (c ∷ chunks) = c ++ concat chunks

take-drop : (n : ℕ) (xs : Bytes) → take n xs ++ drop n xs ≡ xs
take-drop zero xs = refl
take-drop (suc n) [] = refl
take-drop (suc n) (x ∷ xs) = ap (λ l. x ∷ l) (take-drop n xs)

length-take_le : (n : ℕ) (xs : Bytes) → n ≤ length xs → length (take n xs) ≡ n
length-take_le zero xs h = refl
length-take_le (suc n) [] h = absurd (omega arith)
length-take_le (suc n) (x ∷ xs) h = omega (arith, length-take_le n xs (omega arith))

pub take-append : (xs ys : Bytes) → take (length xs) (xs ++ ys) ≡ xs
take-append [] ys = refl
take-append (x ∷ xs) ys = ap (λ l. x ∷ l) (take-append xs ys)

pub drop-append : (xs ys : Bytes) → drop (length xs) (xs ++ ys) ≡ ys
drop-append [] ys = refl
drop-append (x ∷ xs) ys = drop-append xs ys

abbrev tail_of : Bytes → Bytes
tail_of [] = []
tail_of (x ∷ xs) = xs

abbrev head_or : ℕ → Bytes → ℕ
head_or n [] = n
head_or n (x ∷ xs) = x

-- A beginning that is short enough lies in the buffer.
pub record Begins (p y h x : Bytes) : Type 0 where
  pub after : Bytes
  pub buffer : h ≡ p ++ after
  pub rest : after ++ x ≡ y

pub begins : (p y h x : Bytes) → h ++ x ≡ p ++ y → length p ≤ length h → Begins p y h x
begins [] y h x e l = record { after = h; buffer = refl; rest = e }
begins (a ∷ p) y [] x e l = absurd (omega arith)
begins (a ∷ p) y (b ∷ h) x e l =
    let r : Begins p y h x = begins p y h x (ap tail_of e) (omega arith) in
    record {
      after = r.after;
      buffer = ap (λ n. n ∷ h) (ap (head_or 0) e) ∙ ap (λ l. a ∷ l) r.buffer;
      rest = r.rest;
    }

pub is_leb : (a b : ℕ) → leb a b ≡ true → a ≤ b
is_leb a b e = ground (arith, e)

pub not_leb : (a b : ℕ) → leb a b ≡ false → b < a
not_leb a b e = ground (arith, e)

kept :
    (buf c rest : Bytes) (room : ℕ)
    → (buf ++ take room c) ++ (drop room c ++ rest) ≡ buf ++ (c ++ rest)
kept buf c rest room =
    append_assoc buf (take room c) (drop room c ++ rest)
    ∙ ap (λ l. buf ++ l)
        (sym (append_assoc (take room c) (drop room c) rest)
          ∙ ap (λ l. l ++ rest) (take-drop room c))

full :
    (buf_len : ℕ) (buf c : Bytes)
    → length buf ≤ buf_len
    → buf_len - length buf < length c
    → length (buf ++ take (buf_len - length buf) c) ≡ buf_len
full buf_len buf c b h = omega (
  arith,
  length-append buf (take (buf_len - length buf) c),
  length-take_le (buf_len - length buf) c (omega arith),
)

abbrev pub FillsTo : ℕ → ℕ → Bytes → Filled → Type 0
FillsTo need buf_len total (filled buf chunks) =
    (buf ++ concat chunks ≡ total) × (need ≤ length buf) × (length buf ≤ buf_len)
FillsTo need buf_len total ended = length total < need

pub fill-FillsTo :
    (need buf_len : ℕ) (buf : Bytes) (chunks : List Bytes)
    → need ≤ buf_len
    → length buf ≤ buf_len
    → FillsTo need buf_len (buf ++ concat chunks) (fill need buf_len buf chunks)
unfolding fill
fill-FillsTo need buf_len buf [] a b = elim (Bool-cases (leb need (length buf))) [
  | inl e ↦ rw (e, fill) (refl, is_leb need (length buf) e, b)
  | inr e ↦ rw (e, fill) (omega (arith, ap length (append_nil buf), not_leb need (length buf) e))
]
fill-FillsTo need buf_len buf (c ∷ chunks) a b = elim (Bool-cases (leb need (length buf))) [
  | inl e ↦ rw (e, fill) (refl, is_leb need (length buf) e, b)
  | inr e ↦ elim (Bool-cases (leb (length c) (buf_len - length buf))) [
    | inl f ↦
        rw (e, f, fill)
          (subst (λ total. FillsTo need buf_len total (fill need buf_len (buf ++ c) chunks))
            (append_assoc buf c (concat chunks))
            (fill-FillsTo need buf_len (buf ++ c) chunks a
              (omega (arith, length-append buf c, is_leb (length c) (buf_len - length buf) f))))
    | inr f ↦
        rw (e, f, fill)
          (
            kept buf c (concat chunks) (buf_len - length buf),
            omega (arith, full buf_len buf c b (not_leb (length c) (buf_len - length buf) f)),
            omega (arith, full buf_len buf c b (not_leb (length c) (buf_len - length buf) f)),
          )
  ]
]

-- A buffer that was filled, where there was enough to read.
pub record Got (need buf_len : ℕ) (total : Bytes) (r : Filled) : Type 0 where
  pub buf : Bytes
  pub chunks : List Bytes
  pub equation : r ≡ filled buf chunks
  pub same : buf ++ concat chunks ≡ total
  pub enough : need ≤ length buf
  pub within : length buf ≤ buf_len

pub got :
    (need buf_len : ℕ) (total : Bytes) (r : Filled)
    → FillsTo need buf_len total r
    → need ≤ length total
    → Got need buf_len total r
got need buf_len total (filled buf chunks) h l = record {
  buf = buf;
  chunks = chunks;
  equation = refl;
  same = h.0;
  enough = h.1;
  within = h.2;
}
got need buf_len total ended h l = absurd (omega arith)

pub no_more :
    (need buf_len : ℕ) (total : Bytes) (r : Filled)
    → FillsTo need buf_len total r
    → length total < need
    → r ≡ ended
no_more need buf_len total (filled buf chunks) h l =
    absurd (omega (arith, length-append buf (concat chunks), ap length h.0))
no_more need buf_len total ended h l = refl
