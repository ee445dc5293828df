-- ===== src/OpenClaw/Sound.antt =====
-- That the connections are in order, and that each operation keeps them so: client.go.
use crew_im.Prelude.{
  ℕ, ◌<◌, String, ◌≡◌, inl, inr, Bool, true, false, not, some, arith, Option-cases,
}
use crew_im.OpenClaw.{
  Client, Reader, ended, new_client, connect, fresh, shut, shut_old, is_current, leave, disconnect,
  close, change,
}

abbrev pub has_ended : Reader → Bool
has_ended ended = true
has_ended _ = false

-- A connection of the map is one of that user, with a read loop, and of all connections just those of
-- the map are open.
pub record Sound (c : Client) : Type 0 where
  pub in_heap : (u a : ℕ) → c.conns u ≡ some a → a < c.next
  pub of_user : (u a : ℕ) → c.conns u ≡ some a → (c.heap a).user ≡ u
  pub is_read : (u a : ℕ) → c.conns u ≡ some a → has_ended (c.heap a).reader ≡ false
  pub is_open : (a : ℕ) → a < c.next → (c.heap a).closed ≡ not (is_current a c)
  pub is_cancelled : (a : ℕ) → a < c.next → (c.heap a).cancelled ≡ true → (c.heap a).closed ≡ true

pub new_client-Sound : Sound new_client
unfolding new_client
new_client-Sound = record {
  in_heap = λ u a e. absurd (ground arith);
  of_user = λ u a e. absurd (ground arith);
  is_read = λ u a e. absurd (ground arith);
  is_open = λ a h. absurd (omega (arith, h));
  is_cancelled = λ a h. absurd (omega (arith, h));
}

-- The list of goroutines is of no account.
pub set_reader-Sound :
    (c : Client) (a : ℕ) (r : Reader)
    → has_ended r ≡ false
    → Sound c
    → Sound (record c { heap = change a (λ k. record k { reader = r }) c.heap })
set_reader-Sound c a r live s = record {
  in_heap = s.in_heap;
  of_user = λ u b e. let p = s.of_user u b e in ground arith;
  is_read = λ u b e. let p = s.is_read u b e in ground arith;
  is_open = λ b h. let p = s.is_open b h in ground arith;
  is_cancelled = λ b h. let p = s.is_cancelled b h in ground arith;
}

pub disconnect-Sound : (user : ℕ) (c : Client) → Sound c → Sound (disconnect user c)
unfolding disconnect shut_old shut
disconnect-Sound user c s = elim (Option-cases (c.conns user)) [
  | inl e ↦ rw e (record {
    in_heap = λ u b h. let p = s.in_heap u b in ground arith;
    of_user = λ u b h. let p = s.of_user u b in ground arith;
    is_read = λ u b h. let p = s.is_read u b in ground arith;
    is_open = λ b h. let p = s.is_open b h in ground arith;
    is_cancelled = λ b h. let p = s.is_cancelled b h in ground arith;
  })
  | inr (a, e) ↦ rw e (record {
    in_heap = λ u b h. let p = s.in_heap u b in ground arith;
    of_user = λ u b h. let p = s.of_user u b in ground arith;
    is_read = λ u b h. let p = s.is_read u b in ground arith;
    is_open = λ b h. let p = s.is_open b h in let q = s.of_user user a e in ground arith;
    is_cancelled = λ b h. let p = s.is_cancelled b h in ground arith;
  })
]

pub connect-Sound : (user : ℕ) (url : String) (c : Client) → Sound c → Sound (connect user url c)
unfolding connect shut_old shut fresh
connect-Sound user url c s = elim (Option-cases (c.conns user)) [
  | inl e ↦ rw e (record {
    in_heap = λ u b h. let p = s.in_heap u b in ground arith;
    of_user = λ u b h. let p = s.of_user u b in let q = s.in_heap u b in ground arith;
    is_read = λ u b h. let p = s.is_read u b in let q = s.in_heap u b in ground arith;
    is_open = λ b h. let p = s.is_open b in ground arith;
    is_cancelled = λ b h. let p = s.is_cancelled b in ground arith;
  })
  | inr (a, e) ↦ rw e (record {
    in_heap = λ u b h. let p = s.in_heap u b in ground arith;
    of_user = λ u b h. let p = s.of_user u b in let q = s.in_heap u b in ground arith;
    is_read = λ u b h. let p = s.is_read u b in let q = s.in_heap u b in ground arith;
    is_open = λ b h.
        let p = s.is_open b in
        let q = s.of_user user a e in let r = s.in_heap user a e in ground arith;
    is_cancelled = λ b h. let p = s.is_cancelled b in ground arith;
  })
]

pub leave-Sound : (a : ℕ) (c : Client) → Sound c → Sound (leave a c)
unfolding leave
leave-Sound a c s = record {
  in_heap = λ u b e. let p = s.in_heap u b in ground arith;
  of_user = λ u b e. let p = s.of_user u b in ground arith;
  is_read = λ u b e. let p = s.is_read u b in let q = s.of_user u b in ground arith;
  is_open = λ b h. let p = s.is_open b h in let q = s.in_heap (c.heap b).user in ground arith;
  is_cancelled = λ b h. let p = s.is_cancelled b h in ground arith;
}

pub close-Sound : (c : Client) → Sound c → Sound (close c)
unfolding close shut
close-Sound c s = record {
  in_heap = λ u a e. absurd (ground arith);
  of_user = λ u a e. absurd (ground arith);
  is_read = λ u a e. absurd (ground arith);
  is_open = λ a h. let p = s.is_open a h in ground arith;
  is_cancelled = λ a h. let p = s.is_cancelled a h in ground arith;
}
