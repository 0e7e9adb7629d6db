-- ===== src/Client/Bound.antt =====
-- lib/info.c: the bindings of info_readv(), and what one message does to them.
use infod.Prelude.{
  ℕ, zero, suc, ◌+◌, ◌≤◌, ◌<◌, ◌≡◌, ◌⊎◌, refl, sym, ◌∙◌, ap, true, false, Option, none, some, List,
  [], ◌∷◌, ◌++◌, map, ltb, if◌then◌else◌, length, length-append, take, drop, All, inl, inr,
  Bool-cases, arith,
}
use mathlib.Core.Path.{subst}
use infod.Match.{cstr}
use infod.Store.Put.{same_text}
use infod.Client.{bind_value, bound, put_bind, Bind, value_of, waitret_bind, bind_first}

-- The value that a binding has in the caller's buffer.
abbrev pub slice_of : Option ℕ → ℕ → List ℕ → Option (List ℕ)
slice_of none n buffer = none
slice_of (some o) n buffer = some (take n (drop o buffer))

abbrev pub Lies : Option ℕ → ℕ → ℕ → Type 0
Lies none n size = Unit
Lies (some o) n size = o + n ≤ size

abbrev pub Inside : List ℕ → Bind → Type 0
Inside buffer b = Lies b.value b.valuesz (length buffer)

abbrev pub table : List Bind → List ℕ → List (List ℕ × Option (List ℕ))
table bs buffer = map (λ b. (b.key, slice_of b.value b.valuesz buffer)) bs

-- The first entry with the key gets the value.
abbrev pub set_value :
    List ℕ → Option (List ℕ) → List (List ℕ × Option (List ℕ)) → List (List ℕ × Option (List ℕ))
set_value k v [] = []
set_value k v (e ∷ t) =
    let rest = set_value k v t in if same_text k e.0 then (e.0, v) ∷ t else e ∷ rest

slice-append :
    (o n : ℕ) (xs ys : List ℕ) → o + n ≤ length xs → take n (drop o (xs ++ ys)) ≡ take n (drop o xs)
slice-append zero zero xs ys h = refl
slice-append zero (suc n) [] ys h = absurd (omega (arith, h))
slice-append zero (suc n) (x ∷ xs) ys h =
    ap (λ l. x ∷ l) (slice-append zero n xs ys (omega (arith, h)))
slice-append (suc o) n [] ys h = absurd (omega (arith, h))
slice-append (suc o) n (x ∷ xs) ys h = slice-append o n xs ys (omega (arith, h))

take_all : (v : List ℕ) → take (length v) v ≡ v
take_all [] = refl
take_all (x ∷ v) = ap (λ l. x ∷ l) (take_all v)

slice_end : (xs v : List ℕ) → take (length v) (drop (length xs) (xs ++ v)) ≡ v
slice_end [] v = take_all v
slice_end (x ∷ xs) v = slice_end xs v

-- A value inside the buffer stays when bytes are added.
slice_of-append :
    (o : Option ℕ) (n : ℕ) (xs ys : List ℕ)
    → Lies o n (length xs)
    → Lies o n (length (xs ++ ys)) × (slice_of o n (xs ++ ys) ≡ slice_of o n xs)
slice_of-append none n xs ys h = (h, refl)
slice_of-append (some o) n xs ys h =
    (omega (arith, h, length-append xs ys), ap some (slice-append o n xs ys h))

table-append :
    (bs : List Bind) (xs ys : List ℕ)
    → All (Inside xs) bs
    → All (Inside (xs ++ ys)) bs × (table bs (xs ++ ys) ≡ table bs xs)
table-append [] xs ys h = (h, refl)
table-append (b ∷ bs) xs ys h =
    let here = slice_of-append b.value b.valuesz xs ys h.0 in
    let rest = table-append bs xs ys h.1 in ((here.0, rest.0), rw (here.1, rest.1) refl)

abbrev pub value_length : Option (List ℕ) → ℕ
value_length none = 0
value_length (some v) = length v

-- The bindings, and the first bytes of the buffer that they are in, after a message with this key and
-- value.
pub record IsBound (k : List ℕ) (v : Option (List ℕ)) (bs : List Bind) (buffer : List ℕ) (size : ℕ)
    (r : List Bind × List ℕ) : Type 0 where
  pub added : List ℕ
  pub grown : r.1 ≡ buffer ++ added
  pub inside : All (Inside r.1) r.0
  pub short : length r.1 ≤ size
  pub more : length r.1 ≤ length buffer + value_length v
  pub read : table r.0 r.1 ≡ set_value k v (table bs buffer)

append_nil : (xs : List ℕ) → xs ≡ xs ++ []
append_nil [] = refl
append_nil (x ∷ xs) = ap (λ l. x ∷ l) (append_nil xs)

-- As well as that, the buffer may be too small.
abbrev pub Binds :
    List ℕ → Option (List ℕ) → List Bind → List ℕ → ℕ → Option (List Bind × List ℕ) → Type 0
Binds k v bs buffer size o =
    ((o ≡ none) × (size < length buffer + value_length v))
    ⊎ ((r : List Bind × List ℕ) × (o ≡ some r) × IsBound k v bs buffer size r)

bind_head :
    (b : Bind) (bs : List Bind) (k buffer : List ℕ) (size : ℕ)
    → same_text k b.key ≡ true
    → All (Inside buffer) (b ∷ bs)
    → length buffer ≤ size
    → (v : Option (List ℕ)) → Binds k v (b ∷ bs) buffer size (bound bs (bind_value b buffer size v))
bind_head b bs k buffer size q a l none = inr (
  (record b { value = none; valuesz = 0 } ∷ bs, buffer),
  refl,
  record {
    added = [];
    grown = append_nil buffer;
    inside = (tt, a.1);
    short = l;
    more = omega arith;
    read = rw q refl;
  },
)
bind_head b bs k buffer size q a l (some v) =
    elim (Bool-cases (ltb size (length v + length buffer))) [
      | inl f ↦ inl (rw f refl, ground (arith, f))
      | inr f ↦
          let t = table-append bs buffer v a.1 in
          let n = length-append buffer v in
          inr (
            (record b { value = some (length buffer); valuesz = length v } ∷ bs, buffer ++ v),
            rw f refl,
            record {
              added = v;
              grown = refl;
              inside = (omega (arith, n), t.0);
              short = ground (arith, f, n);
              more = omega (arith, n);
              read = rw (q, slice_end buffer v, t.1) refl;
            },
          )
    ]

bind_tail :
    (b : Bind) (bs : List Bind) (k buffer : List ℕ) (size : ℕ)
    → same_text k b.key ≡ false
    → All (Inside buffer) (b ∷ bs)
    → (v : Option (List ℕ)) (o : Option (List Bind × List ℕ)) → Binds k v bs buffer size o
    → Binds k v (b ∷ bs) buffer size (put_bind bs o b)
bind_tail b bs key buffer size q a v o (inl (e, m)) = inl (rw e refl, m)
bind_tail b bs key buffer size q a v o (inr (r, e, k)) =
    let here = slice_of-append b.value b.valuesz buffer k.added a.0 in
    let same = ap (slice_of b.value b.valuesz) k.grown ∙ here.1 in
    inr (
      (b ∷ r.0, r.1),
      rw e refl,
      record {
        added = k.added;
        grown = k.grown;
        inside = (subst (λ z. Inside z b) (sym k.grown) here.0, k.inside);
        short = k.short;
        more = k.more;
        read = rw (q, same, k.read) refl;
      },
    )

pub bind_first-IsBound :
    (bs : List Bind) (content buffer : List ℕ) (size : ℕ)
    → All (Inside buffer) bs
    → length buffer ≤ size
    → Binds (cstr content) (value_of content) bs buffer size (bind_first bs content buffer size)
unfolding bind_first waitret_bind
bind_first-IsBound [] content buffer size a l = inr (
  ([], buffer),
  refl,
  record {
    added = [];
    grown = append_nil buffer;
    inside = tt;
    short = l;
    more = omega arith;
    read = refl;
  },
)
bind_first-IsBound (b ∷ bs) content buffer size a l =
    elim (Bool-cases (same_text (cstr content) b.key)) [
      | inl q ↦ rw q (bind_head b bs (cstr content) buffer size q a l (value_of content))
      | inr q ↦ rw q (
          bind_tail b bs (cstr content) buffer size q a (value_of content) _
            (bind_first-IsBound bs content buffer size a.1 l))
    ]
