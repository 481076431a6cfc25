-- ===== src/Examples/Start.antt =====
-- A start with 16 MB from 1 MB up, `init_thread` at 500 and an allocator that has nothing in use.
use rumpuser_baremetal.Subr.{strcmp, char_val}
use rumpuser_baremetal.Rumpuser.{is_named, memlimit_name, verbose_name, memreserve, getparam}
use rumpuser_baremetal.Rumpuser.Limit.{getparam-read_decimal, read_decimal}
use rumpuser_baremetal.Base.{ℕ, ◌-◌, ◌≡◌, refl, false, some, List, [], ◌∷◌, arith, ◌-ℤ◌, replicate}
use rumpuser_baremetal.Examples.Data.{queue, heap, sched_example}
use rumpuser_baremetal.Examples.Interrupts.{slist, machine_example, intr_example}
use rumpuser_baremetal.Sched.{zeroed}
use rumpuser_baremetal.Boot.{Boot}

abbrev boot_example : Boot
boot_example = record {
  cons = record { buf = λ i. i; x = 0; y = 0 };
  intr = record intr_example {
    machine = record machine_example { spldepth = 1; enabled = false };
    sched = record sched_example { threads = []; zombies = []; thread = λ _. zeroed; heap = [] };
  };
}

-- The names of the rump kernel's header.
abbrev ncpu_name : List ℕ
ncpu_name = b'_' ∷ b'N' ∷ b'C' ∷ b'P' ∷ b'U' ∷ 0 ∷ []

abbrev hostname_name : List ℕ
hostname_name = b'_' ∷ b'H' ∷ b'O' ∷ b'S' ∷ b'T' ∷ 0 ∷ []

other_name : is_named memlimit_name (ncpu_name ∷ verbose_name ∷ []) ≡ some false
unfolding is_named strcmp ◌-ℤ◌ char_val
other_name = refl

another_name : is_named memlimit_name (hostname_name ∷ []) ≡ some false
unfolding is_named strcmp ◌-ℤ◌ char_val
another_name = refl

getparam-read_decimal_example :
    (res : List ℕ) × (getparam ncpu_name hostname_name memlimit_name (replicate 16 7) 16 0x2000000
      ≡ some (0, res))
    × (read_decimal 0 res ≡ 0x2000000 - memreserve)
getparam-read_decimal_example =
    getparam-read_decimal ncpu_name hostname_name (replicate 16 7) 16 0x2000000 other_name
      another_name (omega arith) (omega arith) (omega arith) (omega arith)
