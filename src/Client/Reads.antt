-- ===== src/Client/Reads.antt =====
-- lib/info.c: on_input() under info_readv(), for one message and for many.
use infod.Prelude.{
  ℕ, ◌+◌, ◌≤◌, ◌<◌, ◌≡◌, ◌⊎◌, refl, ◌∙◌, ap, ℤ, pos, negsuc, Option, none, some, List, [], ◌∷◌,
  if◌then◌else◌, length, All, inl, inr, arith, is_positive,
}
use infod.Match.{cstr}
use infod.Proto.Base.{msg_info}
use infod.Client.{Bind, Waitret, value_of, note_until, note_exists, note_binds, tell, on_input}
use infod.Client.Bound.{Inside, table, set_value, value_length, IsBound, bind_first-IsBound}

-- What info_readv() waits with.
abbrev pub reader : {W : Type 0} → List Bind → List ℕ → ℕ → Waitret W → Waitret W
reader bs buffer size w = record w {
  binds = some bs;
  exists_key = none;
  info_cb = none;
  buffer = buffer;
  buffersz = size;
}

-- The result of on_input() for an INFO message to info_readv(): -1 with all as it was but the count of
-- awaited messages, or 1.
abbrev pub Reads :
    {W : Type 0} → List Bind → List ℕ → ℕ → List ℕ → Waitret W → ℤ × Waitret W → Type 0
Reads bs buffer size content w o =
    ((o ≡ (negsuc 0, note_until msg_info (reader bs buffer size w)))
      × (size < length buffer + value_length (value_of content)))
    ⊎ ((r : List Bind × List ℕ) × (o ≡ (pos 1, note_until msg_info (reader r.0 r.1 size w)))
        × IsBound (cstr content) (value_of content) bs buffer size r)

pub on_input-Reads :
    {W : Type 0} (bs : List Bind) (content buffer : List ℕ) (size : ℕ) (w : Waitret W)
    → All (Inside buffer) bs
    → length buffer ≤ size
    → Reads bs buffer size content w (on_input msg_info content (reader bs buffer size w))
unfolding on_input note_until note_exists note_binds tell
on_input-Reads bs content buffer size w a l = elim (bind_first-IsBound bs content buffer size a l) [
  | inl (e, m) ↦ inl (rw e refl, m)
  | inr (r, e, k) ↦ inr (r, rw e refl, k)
]

-- What the values of the messages take together.
abbrev pub lengths : List (List ℕ) → ℕ
lengths [] = 0
lengths (content ∷ contents) = value_length (value_of content) + lengths contents

-- INFO messages one after another, as long as on_input() returns a positive number.
abbrev pub take_in : {W : Type 0} → List (List ℕ) → Waitret W → ℤ × Waitret W
take_in [] w = (pos 1, w)
take_in (content ∷ contents) w =
    let r = on_input msg_info content w in
    let rest = take_in contents r.1 in if is_positive r.0 then rest else r

-- The keys with the values that the messages leave them.
abbrev pub after_all :
    List (List ℕ) → List (List ℕ × Option (List ℕ)) → List (List ℕ × Option (List ℕ))
after_all [] t = t
after_all (content ∷ contents) t =
    after_all contents (set_value (cstr content) (value_of content) t)

pub record IsRead {W : Type 0} (contents : List (List ℕ)) (bs : List Bind) (buffer : List ℕ)
    (size : ℕ) (w : Waitret W) : Type 0 where
  pub bindings : List Bind
  pub bytes : List ℕ
  pub rest : Waitret W
  pub same : w ≡ reader bindings bytes size rest
  pub inside : All (Inside bytes) bindings
  pub short : length bytes ≤ size
  pub read : table bindings bytes ≡ after_all contents (table bs buffer)

IsRead-cons :
    {W : Type 0} (content : List ℕ) (contents : List (List ℕ)) (bs : List Bind) (buffer : List ℕ)
    (size : ℕ) (r : List Bind × List ℕ)
    → IsBound (cstr content) (value_of content) bs buffer size r
    → (w : Waitret W) → IsRead contents r.0 r.1 size w
    → IsRead (content ∷ contents) bs buffer size w
IsRead-cons content contents bs buffer size r k w p = record {
  bindings = p.bindings;
  bytes = p.bytes;
  rest = p.rest;
  same = p.same;
  inside = p.inside;
  short = p.short;
  read = p.read ∙ ap (after_all contents) k.read;
}

-- INFO messages one after another, to bindings whose values lie inside the bytes taken of the caller's
-- buffer: on_input() returns -1 for one of them only where the values of all of them together do not fit
-- behind these bytes; otherwise it returns 1 for each. Then no more bytes are taken than the buffer has,
-- every value lies inside these, and the bindings have the values that the messages give: each message
-- sets the value of the first binding with its key, or makes it NULL, and no other.
pub take_in-IsRead :
    {W : Type 0} (contents : List (List ℕ)) (bs : List Bind) (buffer : List ℕ) (size : ℕ)
    (w : Waitret W)
    → All (Inside buffer) bs
    → length buffer ≤ size
    → (((take_in contents (reader bs buffer size w)).0 ≡ negsuc 0)
        × (size < length buffer + lengths contents))
      ⊎ (((take_in contents (reader bs buffer size w)).0 ≡ pos 1)
          × IsRead contents bs buffer size (take_in contents (reader bs buffer size w)).1)
unfolding note_until
take_in-IsRead [] bs buffer size w a l = inr (
  refl,
  record {
    bindings = bs;
    bytes = buffer;
    rest = w;
    same = refl;
    inside = a;
    short = l;
    read = refl;
  },
)
take_in-IsRead (content ∷ contents) bs buffer size w a l =
    elim (on_input-Reads bs content buffer size w a l) [
      | inl (e, m) ↦ inl (rw e refl, omega (arith, m))
      | inr (r, e, k) ↦
          rw e
            (elim (take_in-IsRead contents r.0 r.1 size (note_until msg_info w) k.inside k.short) [
              | inl (f, m) ↦ inl (f, omega (arith, m, k.more))
              | inr (f, p) ↦ inr (f, IsRead-cons content contents bs buffer size r k _ p)
            ])
    ]
