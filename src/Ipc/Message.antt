-- ===== src/Ipc/Message.antt =====
-- The message registers: what is read after a write, and what the copy of a message changes.
use f9_kernel.Base.{
  ℕ, zero, suc, ◌+◌, ◌≡◌, ◌≢◌, refl, ap, ◌∙◌, arith, ◌&&◌, ltb, leb, ◌==◌, if◌then◌else◌, inl, inr,
  Bool-cases,
}
use f9_kernel.Tcb.{Ptr}
use f9_kernel.Ipc.{IpcBlock, ipc_read_mr, ipc_write_mr, write_block, copy_untyped}

-- A message register that is written is read back, and no other one changes: registers, buffer and
-- UTCB do not overlap.
pub read-write :
    (i j v : ℕ) (b : IpcBlock)
    → ipc_read_mr (ipc_write_mr i v b) j ≡ (if j == i then v else ipc_read_mr b j)
unfolding ipc_read_mr ipc_write_mr
read-write i j v b = ground arith

-- A block but for its message registers.
abbrev pub envelope : IpcBlock → IpcBlock
envelope b = record b { regs = λ i. 0; msg_buffer = λ i. 0; mr = λ i. 0 }

pub envelope-write : (i v : ℕ) (b : IpcBlock) → envelope (ipc_write_mr i v b) ≡ envelope b
unfolding ipc_write_mr
envelope-write i v b = elim (Bool-cases (ltb i 8)) [
  | inl h ↦ rw h refl
  | inr h ↦ elim (Bool-cases (ltb i 40)) [ inl g ↦ rw (h, g) refl | inr g ↦ rw (h, g) refl ]
]

-- What a copy of `n` words from the `i`-th on leaves.
pub record Copied (n i : ℕ) (from to : Ptr) (f f' : Ptr → IpcBlock) : Type 0 where
  pub words :
      (j : ℕ)
      → ipc_read_mr (f' to) j
        ≡ (if leb i j && ltb j (i + n) then ipc_read_mr (f from) j else ipc_read_mr (f to) j)
  pub rest : envelope (f' to) ≡ envelope (f to)
  pub others : (q : Ptr) → q ≢ to → f' q ≡ f q

pub copy_untyped-Copied :
    (n i : ℕ) (from to : Ptr) (f : Ptr → IpcBlock)
    → from ≢ to
    → Copied n i from to f (copy_untyped n i from to f)
unfolding copy_untyped
copy_untyped-Copied zero i from to f ne = record {
  words = λ j. ground arith;
  rest = refl;
  others = λ q h. refl;
}
copy_untyped-Copied (suc n) i from to f ne =
    let word = ipc_read_mr (f from) i in
    let b = ipc_write_mr i word (f to) in
    let f₁ = write_block to b f in
    let here : f₁ to ≡ b = ground arith in
    let there : f₁ from ≡ f from = ground arith in
    let c = copy_untyped-Copied n (i + 1) from to f₁ ne in
    record {
      words = λ j. ground (
        arith,
        c.words j,
        ap (λ (x : IpcBlock). ipc_read_mr x j) here,
        ap (λ (x : IpcBlock). ipc_read_mr x j) there,
        read-write i j word (f to),
      );
      rest = c.rest ∙ ap envelope here ∙ envelope-write i word (f to);
      others = λ q h. c.others q h ∙ ground arith;
    }
