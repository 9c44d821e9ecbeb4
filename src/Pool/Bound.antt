-- ===== src/Pool/Bound.antt =====
-- The workers go through finitely many critical sections, however they are interleaved.
use repro_vm_virtual_machine.Prelude.{ℕ, suc, ◌+◌, ◌*◌, if◌then◌else◌, List, length}
use repro_vm_virtual_machine.Pool.{here, next, is_work, Pool, Task, Links, Reach}

-- A step that is not the last brings a task or a worker further.
abbrev done_so_far : Pool → ℕ
done_so_far p =
    length p.running
    + length p.stuck
    + p.exited
    + 2 * (length p.finished + length p.given_up)
    + (if p.mu_held then 1 else 0)

-- What may go on without work: each idle worker may fall asleep, and the main thread may wake up all.
abbrev restless : ℕ → Pool → ℕ
restless w p = p.idle + (if p.waking then suc w else 0)

-- The steps that are no work: workers that fall asleep, and the broadcast of the main thread.
unfoldable pub rests :
    {tasks : List Task} {links : Links} {subset : List ℕ} {p q : Pool}
    → Reach tasks links subset p q
    → ℕ
unfolding is_work
rests here = 0
rests (next r s) = (if is_work s then 0 else 1) + rests r
