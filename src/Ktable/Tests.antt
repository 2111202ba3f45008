-- ===== src/Ktable/Tests.antt =====
-- Runs of the kernel tables.
use f9_kernel.Base.{ℕ, ◌≡◌, refl, some, arith, ◌==◌, if◌then◌else◌}
use f9_kernel.Base.Bits.{bit}
use f9_kernel.Bitmap.{bitmap_test_and_set_bit, bitmap_get_bit, bitmap_set_bit}
use f9_kernel.Ktable.{Ktable, ktable_alloc, alloc_from, ktable_alloc_id, ktable_free}
use f9_kernel.Ktable.Alloc.{IsTable, Allocated, ktable_alloc-Allocated, ktable_free-alloc}

-- A table of three elements of eight bytes, of which the first is allocated.
abbrev one_taken : Ktable
one_taken = record { bitmap = λ k. if k == 0 then 1 else 0; base = 4096; num = 3; size = 8 }

one_taken-IsTable : IsTable one_taken
one_taken-IsTable = record {
  base_pos = ground arith;
  num_pos = ground arith;
  size_pos = ground arith;
  num_small = omega arith;
  fits = omega arith;
}

-- The index 3, one past the last element, is given out.
past_end_run : (ktable_alloc_id one_taken 3).0 ≡ some 4120
unfolding ktable_alloc_id bitmap_test_and_set_bit bitmap_get_bit bit
past_end_run = refl

-- The table after the second element was allocated.
abbrev two_taken : Ktable
two_taken = record one_taken { bitmap = bitmap_set_bit one_taken.bitmap 1 }

two_taken_runs : ktable_alloc one_taken ≡ (some 4104, two_taken)
unfolding ktable_alloc alloc_from bitmap_test_and_set_bit bitmap_get_bit bit
two_taken_runs = refl

ktable_alloc-Allocated_example : (i : ℕ) × Allocated one_taken i 4104 two_taken
ktable_alloc-Allocated_example = ktable_alloc-Allocated one_taken one_taken-IsTable two_taken_runs

ktable_free-alloc_example :
    bitmap_get_bit (ktable_free two_taken 4104).bitmap 1 ≡ bitmap_get_bit one_taken.bitmap 1
ktable_free-alloc_example = ktable_free-alloc one_taken one_taken-IsTable two_taken_runs 1
