-- ===== src/Store/Repack.antt =====
-- store_repack() of daemon/store.c keeps the texts of the file, and leaves no gap between them.
use infod.Prelude.{
  ℕ, zero, suc, ◌+◌, ◌*◌, ◌^◌, ◌≤◌, ◌<◌, ◌≡◌, refl, ◌∙◌, ap, true, false, ◌&&◌, List, [], ◌∷◌, ◌++◌,
  map, ltb, leb, ◌==◌, if◌then◌else◌, arith, Bool-cases, inl, inr, ==_iff, length, ltb→lt, lt→ltb,
}
use mathlib.Core.Path.{subst}
use mathlib.Core.List.{append_assoc, map-append}
use infod.Prelude.Ends.{Run, done, aborted}
use infod.Store.Record.{Bytes, u32, align_up, entry_at, record_is_gap, record_get_size, copy}
use infod.Store.File.{
  StoreFile, Backing, set_file, store_index_ensure, store_increment, repack_data, repack_loop,
}
use infod.Store.Layout.{
  Holds, Packs, IsByte, Agrees, data_size, Holds-Agrees, Packs-Agrees, Packs-snoc, is_gap-Agrees,
  entry_at-Agrees, get_size-Agrees,
}

-- A record moved down from `from` to `to`, if it does not stay.
abbrev pub moved_down : ℕ → ℕ → ℕ → Bytes → Bytes
moved_down to from n m = if to == from then m else copy to from n m

record IsMoved (to from n : ℕ) (m m' : Bytes) : Type 0 where
  there : Agrees m' to m from n
  below : (x : ℕ) → x < to → m' x ≡ m x
  above : (x : ℕ) → to + n ≤ x → m' x ≡ m x
  bytes : IsByte m → IsByte m'

moved_down-IsMoved : (to from n : ℕ) (m : Bytes) → IsMoved to from n m (moved_down to from n m)
unfolding copy
moved_down-IsMoved to from n m = elim (Bool-cases (to == from)) [
  | inl e ↦ rw e (record {
    there = λ k b. ap (λ o. m (o + k)) ((==_iff to from).0 e);
    below = λ x b. refl;
    above = λ x b. refl;
    bytes = λ b. b;
  })
  | inr e ↦ rw e (record {
    there = λ k b.
        let inside : (leb to (to + k) && ltb (to + k) (to + n)) ≡ true = ground (arith, b) in
        rw inside (ap m (omega arith));
    below = λ x b.
        let outside : (leb to x && ltb x (to + n)) ≡ false = ground (arith, b) in rw outside refl;
    above = λ x b.
        let outside : (leb to x && ltb x (to + n)) ≡ false = ground (arith, b) in rw outside refl;
    bytes = λ b x. elim (Bool-cases (leb to x && ltb x (to + n))) [
      | inl i ↦ rw i (b _)
      | inr i ↦ rw i (b x)
    ];
  })
]

-- At `offset` in the loop: the records before w_offset hold the texts of `cells`, and from `offset` on
-- there are still `rest`.
pub record IsRepacking (all rest : List (List ℕ)) (space offset w : ℕ) (s : StoreFile)
    (cells : List ℕ) : Type 0 where
  pub ahead : Holds s.file space offset rest
  pub packs : Packs s.file w 0 cells
  pub texts : map (entry_at s.file) cells ++ rest ≡ all
  pub order : w ≤ offset
  pub bytes : IsByte s.file

pub record IsRepacked (all : List (List ℕ)) (s s' : StoreFile) (w : ℕ) (cells : List ℕ)
    : Type 0 where
  pub packs : Packs s'.file w 0 cells
  pub texts : map (entry_at s'.file) cells ≡ all
  pub bytes : IsByte s'.file
  pub space : s'.space ≡ s.space
  pub filesz : s'.filesz ≡ s.filesz
  pub pagesize : s'.pagesize ≡ s.pagesize

module _ (backing : Backing) (granted : (n : ℕ) → backing.can_alloc n ≡ true) where
  ensured :
      (i : ℕ) (s : StoreFile)
      → i + 64 < 2 ^ 32
      → (max : ℕ) × ((store_index_ensure backing i s).1 ≡ record s { max = max }) × (i < max)
  unfolding store_index_ensure align_up
  ensured i s b = elim (Bool-cases (ltb i s.max)) [
    | inl e ↦ (s.max, rw e refl, ltb→lt i s.max e)
    | inr e ↦ (
      align_up (i + 1) store_increment,
      rw (e, granted (align_up (i + 1) store_increment * 8)) refl,
      omega (arith, b),
    )
  ]

  -- A data record is moved down to the others.
  pub text_moved :
      (all rest : List (List ℕ)) (space offset w : ℕ) (s : StoreFile) (cells : List ℕ)
      → record_is_gap s.file offset ≡ false
      → Holds s.file space (offset + record_get_size s.file offset) rest
      → Packs s.file w 0 cells
      → map (entry_at s.file) cells ++ entry_at s.file offset ∷ rest ≡ all
      → w ≤ offset
      → IsByte s.file
      → (max : ℕ)
      → IsRepacking all rest space
          (offset + record_get_size s.file offset)
          (w + record_get_size s.file offset)
          (record s {
            file = moved_down w offset (record_get_size s.file offset) s.file;
            max = max;
          })
          (cells ++ w ∷ [])
  text_moved all rest space offset w s cells g h p t l b max =
      let n = record_get_size s.file offset in
      let m' = moved_down w offset n s.file in
      let v = moved_down-IsMoved w offset n s.file in
      let d = (data_size s.file offset b g).1 in
      let k = Packs-Agrees m' s.file w 0 cells b (λ x _ q. v.below x q) p in
      let gap = is_gap-Agrees m' s.file w offset n (omega (arith, d.1)) v.there ∙ g in
      let same = get_size-Agrees m' s.file w offset n d.1 v.there in
      record {
        ahead =
            Holds-Agrees m' s.file space (offset + n) rest b
              (λ x q _. v.above x (omega (arith, q, l))) h;
        packs =
            subst (λ z. Packs m' (w + z) 0 (cells ++ w ∷ [])) same
              (Packs-snoc m' w 0 cells gap k.0);
        texts =
            rw
              (
                map-append (entry_at m') cells (w ∷ []),
                k.1,
                entry_at-Agrees m' s.file w offset n d.0 v.there,
                append_assoc (map (entry_at s.file) cells) (entry_at s.file offset ∷ []) rest,
              )
              t;
        order = omega (arith, l);
        bytes = v.bytes b;
      }

  pub repack_data_lem :
      (offset w size : ℕ) (s : StoreFile) (cells : List ℕ)
      (next : StoreFile → List ℕ → Run (StoreFile × (ℕ × List ℕ)))
      → length cells + 64 < 2 ^ 32
      → (max : ℕ) × (repack_data backing offset w size s cells next
          ≡ next (record s { file = moved_down w offset size s.file; max = max }) (cells ++ w ∷ []))
  unfolding repack_data
  repack_data_lem offset w size s cells next b =
      let t = if w == offset then s else set_file (copy w offset size s.file) s in
      let (max, e, l) = ensured (length cells) t b in
      let same : t ≡ record s { file = moved_down w offset size s.file } =
        elim (Bool-cases (w == offset)) [ inl q ↦ rw q refl | inr q ↦ rw q refl ] in
      let fits : ltb (length cells) max ≡ true = lt→ltb (length cells) max l in
      (
        max,
        ap (λ s'. if ltb (length cells) s'.max then next s' (cells ++ w ∷ []) else aborted)
              (e ∙ ap {A = StoreFile} (λ x. record x { max = max }) same)
            ∙ rw fits refl,
      )

  pub step_end :
      (fuel space offset w : ℕ) (s : StoreFile) (cells : List ℕ)
      → space ≤ offset
      → repack_loop backing fuel space offset w s cells ≡ done (s, (w, cells))
  unfolding repack_loop
  step_end zero space offset w s cells l =
      let no : ltb offset space ≡ false = ground (arith, l) in rw no refl
  step_end (suc fuel) space offset w s cells l =
      let no : ltb offset space ≡ false = ground (arith, l) in rw (no, repack_loop) refl

  pub step_gap :
      (fuel space offset w : ℕ) (s : StoreFile) (cells : List ℕ)
      → offset < space
      → record_is_gap s.file offset ≡ true
      → repack_loop backing (suc fuel) space offset w s cells
        ≡ repack_loop backing fuel space (u32 (offset + record_get_size s.file offset)) w s cells
  unfolding repack_loop
  step_gap fuel space offset w s cells l g =
      rw (lt→ltb offset space l, repack_loop) (rw (g, repack_loop) refl)

  pub step_text :
      (fuel space offset w : ℕ) (s : StoreFile) (cells : List ℕ)
      → offset < space
      → record_is_gap s.file offset ≡ false
      → repack_loop backing (suc fuel) space offset w s cells
        ≡ repack_data backing offset w (record_get_size s.file offset) s cells (λ s' cells'.
          repack_loop backing fuel space
            (u32 (offset + record_get_size s.file offset))
            (u32 (w + record_get_size s.file offset))
            s'
            cells')
  unfolding repack_loop
  step_text fuel space offset w s cells l g =
      rw (lt→ltb offset space l, repack_loop) (rw (g, repack_loop) refl)
