-- ===== src/Threads/Cooperative/Tests.antt =====
-- Thread 0 started the others; thread 1 runs, thread 2 waits, and thread 3 has exited.
use dfs_pios_ro.Threads.Cooperative.Turns.{yields, IsStart, rpi_fork-turn}
use dfs_pios_ro.Base.{ℕ, ◌>>=◌, [], ok, ◌≡◌, ◌∷◌, none, refl, some, elem_at, arith}
use dfs_pios_ro.Threads.Cooperative.{rpi_fork, rpi_exit, rpi_yield, rpi_thread_start, Pool, Block}

abbrev unused : Block
unused = record { saved_sp = 0; tid = 0; fn = 0; arg = 0; stack = λ i. 0 }

abbrev pool : Pool
pool = record {
  blocks = unused ∷ unused ∷ unused ∷ unused ∷ [];
  runq = 2 ∷ [];
  freeq = 3 ∷ [];
  cur_thread = some 1;
  scheduler_thread = some 0;
  tid = 5;
  nalloced = 4;
  init_trampoline = 0x8100;
  unused = unused;
}

rpi_fork-turn_example :
    (a : ℕ) × (p' p'' : Pool) × (t : Block) × (rpi_fork pool 0x9000 7 ≡ ok (a, p'))
    × (yields 2 p' ≡ ok p'')
    × (p''.cur_thread ≡ some a)
    × (p''.runq ≡ 1 ∷ 2 ∷ [])
    × (elem_at p''.blocks a ≡ ok t)
    × IsStart pool 0x9000 7 t
rpi_fork-turn_example = rpi_fork-turn pool 0x9000 7 1 refl (omega arith, tt) (omega arith, tt)

-- A thread that exits makes room for the next, and the last one for the caller.
exits_test :
    (rpi_exit pool >>= rpi_exit)
    ≡ ok (record pool { runq = []; freeq = 2 ∷ 1 ∷ 3 ∷ []; cur_thread = some 0 })
unfolding rpi_exit
exits_test = refl

-- The first start takes a block for its caller.
start_test :
    rpi_thread_start (record pool { cur_thread = none; scheduler_thread = none; freeq = 3 ∷ [] })
    ≡ ok (record pool {
      blocks = unused ∷ unused ∷ unused ∷ record unused { tid = 5 } ∷ [];
      runq = [];
      freeq = [];
      cur_thread = some 2;
      scheduler_thread = some 3;
      tid = 6;
    })
unfolding rpi_thread_start
start_test = refl

alone_test : rpi_yield (record pool { runq = [] }) ≡ ok (record pool { runq = [] })
unfolding rpi_yield
alone_test = refl
