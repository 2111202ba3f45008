-- ===== src/Fpage/Split.antt =====
-- What `split_fpage` does to the list of an address space.
use f9_kernel.Base.{
  ℕ, ◌+◌, ◌-◌, ◌*◌, ◌%◌, ◌^◌, ◌<◌, ◌≤◌, ◌≡◌, refl, ap, sym, subst, ◌∙◌, arith, Bool, true, false,
  ◌||◌, List, [], ◌∷◌, ◌++◌, ◌==◌, leb, if◌then◌else◌, has, has-append, erase, length,
  length-append,
}
use f9_kernel.Tcb.{Ptr}
use f9_kernel.Memory.{Mempool}
use f9_kernel.Fpage.{Fpage, Pages, fpage_end, destroy_fpage, create_fpage_chain}
use f9_kernel.Fpage.Chain.{
  Tiles, Tiles-frame, Tiles-length, Chained-full, create_fpage_chain-Chained, pow_multiple,
}
use f9_kernel.Fpage.Space.{
  As, first_of, last_of, insert_fpage_chain_to_as, split_point, split_fpage,
}
use f9_kernel.Fpage.Spaced.{
  Spaced, Spaced-top, IsSpace, IsSpace-created, created_kept, created_used,
}
use f9_kernel.Fpage.Cover.{Tiles-some}
use f9_kernel.Fpage.Insert.{
  insert_fpage_chain_to_as_lem, Spaced-before, Spaced-from, Spaced-begins, Tiles-last, Tiles-upto,
  all_upto-append, erase-middle,
}

append_assoc : (xs ys zs : List Ptr) → (xs ++ ys) ++ zs ≡ xs ++ (ys ++ zs)
append_assoc [] ys zs = refl
append_assoc (x ∷ xs) ys zs = ap (λ l. x ∷ l) (append_assoc xs ys zs)

Tiles-last_of :
    (page : Ptr → Fpage) (base : ℕ) (ps : List Ptr) (end_ : ℕ)
    → Tiles page base ps end_
    → base < end_
    → (base ≤ (page (last_of ps)).base) × ((page (last_of ps)).base < end_)
Tiles-last_of page base [] end_ t lt = absurd (omega arith)
Tiles-last_of page base (p ∷ ps) end_ t lt = Tiles-last page base p ps end_ t

-- Two chains that tile the area of a page take its place in the list.
module _ (page : Ptr → Fpage) (fp : Ptr) (xs ys left right : List Ptr) (at end_ : ℕ)
    (spaced : Spaced page 0 (xs ++ (fp ∷ ys)))
    (is_end : (page fp).base + 2 ^ (page fp).shift ≡ end_) (low : (page fp).base < at)
    (high : at < end_) (left_tiles : Tiles page (page fp).base left at)
    (right_tiles : Tiles page at right end_) where
  pub split_list :
      insert_fpage_chain_to_as page
        (insert_fpage_chain_to_as page (erase fp (xs ++ (fp ∷ ys))) left)
        right
      ≡ xs ++ (left ++ (right ++ ys))
  split_list =
      let b₁ = (page (last_of left)).base in
      let b₂ = (page (last_of right)).base in
      let (i₁, j₁) = Tiles-last_of page (page fp).base left at left_tiles low in
      let (i₂, j₂) = Tiles-last_of page at right end_ right_tiles high in
      let (k, upto, gone) = Spaced-before page 0 xs fp ys b₁ spaced i₁ in
      let (k', upto', gone') = Spaced-before page 0 xs fp ys b₂ spaced (omega arith) in
      let (lo, (le, al, ge, rest)) = Spaced-from page 0 xs (fp ∷ ys) spaced in
      let behind =
        Spaced-begins page ((page fp).base + 2 ^ (page fp).shift) b₁ ys rest (omega arith) in
      let behind' =
        Spaced-begins page ((page fp).base + 2 ^ (page fp).shift) b₂ ys rest (omega arith) in
      let some₁ = Tiles-some page (page fp).base left at left_tiles low in
      let some₂ = Tiles-some page at right end_ right_tiles high in
      let up₂ =
        all_upto-append page b₂ xs left upto'
          (Tiles-upto page (page fp).base left at b₂ left_tiles i₂) in
      let ins = λ (l : List Ptr). insert_fpage_chain_to_as page l right in
      ap (λ l. ins (insert_fpage_chain_to_as page l left)) (erase-middle fp xs ys gone)
      ∙ ap ins (insert_fpage_chain_to_as_lem page left xs ys some₁ upto behind)
      ∙ ap ins (sym (append_assoc xs left ys))
      ∙ insert_fpage_chain_to_as_lem page right (xs ++ left) ys some₂ up₂ behind'
      ∙ append_assoc xs left (right ++ ys)

-- The address space and the pages after `split_fpage`.
pub record Replaced (memmap : List Mempool) (space : As) (fp : Ptr) (split : ℕ) (rl : Bool)
    (ps : Pages) (xs ys : List Ptr) (at : ℕ) : Type 0 where
  pub left : List Ptr
  pub right : List Ptr
  pub after : Pages
  pub runs : split_fpage memmap space fp split rl ps ≡ (
    if rl then first_of right else last_of left,
    record space { first = xs ++ (left ++ (right ++ ys)); mpu_first = erase fp space.mpu_first },
    after,
  )
  pub left_tiles : Tiles after.page (ps.page fp).base left at
  pub right_tiles : Tiles after.page at right ((ps.page fp).base + 2 ^ (ps.page fp).shift)

-- `split_fpage` of a page in the list of an address space that is not mapped, at a point that lies
-- inside the page after it was rounded, with enough free pages: the page's place in the list is taken
-- by a chain that tiles the part below the point and one that tiles the part from it on; the other
-- pages keep their order, the page leaves the list for the MPU, and the result is the first page
-- right of the point or the last one left of it.
pub split_fpage-Replaced :
    (memmap : List Mempool) (space : As) (fp : Ptr) (split : ℕ) (rl : Bool) (ps : Pages)
    (xs ys : List Ptr) (at : ℕ)
    → IsSpace 0 (xs ++ (fp ∷ ys)) ps
    → space.first ≡ xs ++ (fp ∷ ys)
    → (ps.page fp).map_next ≡ fp
    → split_point memmap (ps.page fp).mpid split rl ≡ at
    → at % 256 ≡ 0
    → (ps.page fp).base < at
    → at < (ps.page fp).base + 2 ^ (ps.page fp).shift
    → 2 ^ (ps.page fp).shift ≤ 256 * length ps.free
    → Replaced memmap space fp split rl ps xs ys at
unfolding split_fpage
split_fpage-Replaced memmap space fp split rl ps xs ys at s first alone point al low high many =
    let p = ps.page fp in
    let b = p.base in
    let e = b + 2 ^ p.shift in
    let (lo, (le_p, al_p, ge_p, rest)) = Spaced-from ps.page 0 xs (fp ∷ ys) s.spaced in
    let top = Spaced-top ps.page e ys rest in
    let is_end : fpage_end p ≡ e = omega arith in
    let whole = pow_multiple p.shift ge_p in
    let l = create_fpage_chain memmap b (at - b) p.mpid ps in
    let c₁ =
      create_fpage_chain-Chained memmap b (at - b) p.mpid ps (omega arith) (omega arith) al_p
        (omega arith) s.free in
    let t₁ = Chained-full b (at - b) ps l (omega arith) c₁ in
    let s₁ = IsSpace-created 0 0 b (at - b) (xs ++ (fp ∷ ys)) ps l s s.spaced c₁ in
    let r = create_fpage_chain memmap at (e - at) p.mpid l.1 in
    let c₂ =
      create_fpage_chain-Chained memmap at (e - at) p.mpid l.1 (omega arith) (omega arith) al
        (omega arith) s₁.free in
    let n : length ps.free ≡ length l.0 + length (l.1).free =
      ap length c₁.taken ∙ length-append l.0 (l.1).free in
    let t₂ =
      Chained-full at (e - at) l.1 r
        (omega (arith, n, Tiles-length (l.1).page b l.0 (b + (at - b)) t₁)) c₂ in
    let s₂ = IsSpace-created 0 0 at (e - at) (xs ++ (fp ∷ ys)) l.1 r s₁ s₁.spaced c₂ in
    let page = (r.1).page in
    let listed : has fp (xs ++ (fp ∷ ys)) ≡ true = ground (arith, has-append fp xs (fp ∷ ys)) in
    let same : page fp ≡ p =
      created_kept at (e - at) l.1 r c₂ fp (s₁.used fp listed)
      ∙ created_kept b (at - b) ps l c₁ fp (s.used fp listed) in
    let kept =
      Tiles-frame (l.1).page page b l.0 (b + (at - b))
        (λ q m. created_kept at (e - at) l.1 r c₂ q (created_used b (at - b) ps l s.free c₁ q m))
        t₁ in
    let left : Tiles page b l.0 at = subst (Tiles page b l.0) (omega arith) kept in
    let right : Tiles page at r.0 e = subst (Tiles page at r.0) (omega arith) t₂ in
    let list =
      split_list page fp xs ys l.0 r.0 at e s₂.spaced (rw same refl) (rw same low) high
        (rw same left) right in
    let inside : (leb at b || leb e at) ≡ false = ground arith in
    let single : (p.map_next == fp) ≡ true = ground arith in
    let some_left = Tiles-some page b l.0 at left low in
    let some_right = Tiles-some page at r.0 e right high in
    record {
      left = l.0;
      right = r.0;
      after = destroy_fpage fp r.1;
      runs =
          rw (point, is_end, inside, single, some_left, some_right)
            (ap
              (λ (f : List Ptr). (
                if rl then first_of r.0 else last_of l.0,
                record space { first = f; mpu_first = erase fp space.mpu_first },
                destroy_fpage fp r.1,
              ))
              (ap
                  (λ (f : List Ptr).
                    insert_fpage_chain_to_as page (insert_fpage_chain_to_as page (erase fp f) l.0)
                      r.0)
                  first
                ∙ list));
      left_tiles = left;
      right_tiles = right;
    }
