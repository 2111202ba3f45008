-- ===== src/AddressSpace/Tests.antt =====
-- An address space with two pages.
use f9_kernel.Base.{◌≡◌, refl, arith, [], ◌∷◌}
use f9_kernel.Fpage.Space.{As}
use f9_kernel.AddressSpace.{Spaces, as_create, as_put}
use f9_kernel.AddressSpace.Release.{Destroyed, as_put-Destroyed}

abbrev two_page_space : As
two_page_space = record {
  as_spaceid = 7;
  first = 2 ∷ 4 ∷ [];
  mpu_first = 2 ∷ [];
  mpu_stack_first = 0;
  shared = 1;
}

abbrev example_spaces : Spaces
example_spaces = record {
  space = λ p. two_page_space;
  free_spaces = 6 ∷ [];
  pages = record {
    page = λ p. record { base = 0x20000100; mpid = 0; flags = 1; shift = 8; rwx = 3; map_next = p };
    free = 1 ∷ 3 ∷ [];
  };
}

as_create_run : (as_create 9 example_spaces).0 ≡ 6
unfolding as_create
as_create_run = refl

as_put-Destroyed_example : Destroyed 5 (2 ∷ 4 ∷ []) example_spaces (as_put 256 5 example_spaces)
as_put-Destroyed_example = as_put-Destroyed 256 5 example_spaces (ground arith) refl refl
