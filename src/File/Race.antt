-- ===== src/File/Race.antt =====
-- `GetConn` of lib/file/obj.go run by several goroutines. It takes no lock: the test and the
-- increment are two steps, and the steps of other goroutines may stand between them.
use next_nps.Base.{
  leb, if◌then◌else◌, ◌==◌, replicate, ℕ, zero, suc, ◌+◌, ◌-◌, ◌<◌, ◌≡◌, ap, ◌∙◌, ◌||◌, List, [],
  ◌∷◌, ◌++◌, arith, nat_eq, bytes_eq,
}
use next_nps.Base.Int.{pos, ◌+ℤ◌, ltb_ℤ, int32, ℤ_eq}
use next_nps.File.{Client, cut_conn}

-- `passed` counts the goroutines between the test and the increment.
pub record Threads : Type 0 where
  pub client : Client
  pub passed : ℕ

pub data Event : Type 0 where
  test_limit : Event
  take_slot : Event

unfoldable pub thread_step : Threads → Event → Threads
unfolding cut_conn
thread_step s test_limit =
    if s.client.max_conn == pos 0 || ltb_ℤ s.client.now_conn s.client.max_conn
    then record s { passed = s.passed + 1 }
    else s
thread_step s take_slot =
    if leb 1 s.passed then record { client = cut_conn s.client; passed = s.passed - 1 } else s

unfoldable pub thread_run : Threads → List Event → Threads
unfolding thread_step
thread_run s [] = s
thread_run s (e ∷ es) = thread_run (thread_step s e) es

test_step :
    (max : ℕ) (s : Threads)
    → s.client.max_conn ≡ pos max
    → s.client.now_conn ≡ pos 0
    → 0 < max
    → thread_step s test_limit ≡ record s { passed = s.passed + 1 }
unfolding thread_step
test_step max s m n h = ground arith

all_test :
    (max k : ℕ) (s : Threads) (es : List Event)
    → s.client.max_conn ≡ pos max
    → s.client.now_conn ≡ pos 0
    → 0 < max
    → thread_run s (replicate k test_limit ++ es)
      ≡ thread_run (record s { passed = s.passed + k }) es
unfolding thread_run
all_test max zero s es m n h = ap (λ (p : ℕ). thread_run (record s { passed = p }) es) (omega arith)
all_test max (suc k) s es m n h =
    ap (λ (t : Threads). thread_run t (replicate k test_limit ++ es)) (test_step max s m n h)
    ∙ all_test max k (record s { passed = s.passed + 1 }) es m n h
    ∙ ap (λ (p : ℕ). thread_run (record s { passed = p }) es) (omega arith)

take_step :
    (k i : ℕ) (s : Threads)
    → s.passed ≡ suc k
    → s.client.now_conn ≡ pos i
    → i < 2147483647
    → ((thread_step s take_slot).passed ≡ k)
      × ((thread_step s take_slot).client.now_conn ≡ pos (i + 1))
unfolding thread_step cut_conn int32 ◌+ℤ◌
take_step k i s p n h = ground arith

all_take :
    (k i : ℕ) (s : Threads)
    → s.passed ≡ k
    → s.client.now_conn ≡ pos i
    → i + k < 2147483648
    → (thread_run s (replicate k take_slot)).client.now_conn ≡ pos (i + k)
unfolding thread_run
all_take zero i s p n h = n ∙ ap pos (omega arith)
all_take (suc k) i s p n h =
    let (p', n') = take_step k i s p n (omega arith) in
    all_take k (i + 1) (thread_step s take_slot) p' n' (omega arith) ∙ ap pos (omega arith)

-- Whatever the positive limit, `k` goroutines that test it before any of them counts itself are all
-- let in: from zero the counter reaches `k`, which fits an int32.
pub thread_run_exceeds :
    (max k : ℕ) (c : Client)
    → c.max_conn ≡ pos max
    → c.now_conn ≡ pos 0
    → 0 < max
    → k < 2147483648
    → (thread_run
        (record { client = c; passed = 0 })
        (replicate k test_limit ++ replicate k take_slot)).client.now_conn
      ≡ pos k
thread_run_exceeds max k c m n h b =
    let s : Threads = record { client = c; passed = 0 } in
    ap (λ (t : Threads). t.client.now_conn) (all_test max k s (replicate k take_slot) m n h)
    ∙ all_take k 0 (record s { passed = 0 + k }) (omega arith) n (omega arith)
    ∙ ap pos (omega arith)
