-- ===== src/Gap/Requests.antt =====
-- The retransmit requests of include/feed/gap_buffer.hpp: what they ask for, and how often.
use udp_multicast_receiver.Common.{
  ℕ, zero, suc, ◌+◌, ◌-◌, ◌^◌, ◌≤◌, ◌<◌, ◌≡◌, ◌⊎◌, ◌∙◌, refl, ap, sym, inl, inr, Bool, true, not,
  ◌&&◌, List, [], ◌∷◌, length, leb, u16, u64, Bool-cases, arith,
}
use udp_multicast_receiver.Wire.Mold.{RetransmitRequest}
use udp_multicast_receiver.Gap.State.{GapBuffer, Call, retransmit, holds, capacity}
use udp_multicast_receiver.Gap.Retransmit.{
  count_missing, missing_count, request_due, check_gap_timeout,
}
use udp_multicast_receiver.Gap.Ingest.{tick}

-- No packet that starts at one of the `n` numbers from `seq` on is held back.
unfoldable pub missing_from : GapBuffer → ℕ → ℕ → Bool
missing_from g zero seq = true
missing_from g (suc n) seq = not (holds g seq) && missing_from g n (seq + 1)

-- What the counting loop adds to its count.
count_missing-adds :
    (g : GapBuffer) (rounds seq count : ℕ)
    → count < g.cfg.max_retransmit_count
    → (k : ℕ) × (count_missing g rounds seq count ≡ count + k)
      × (count + k ≤ g.cfg.max_retransmit_count)
      × (missing_from g k seq ≡ true)
unfolding count_missing missing_from
count_missing-adds g zero seq count h = (0, omega arith, omega arith, refl)
count_missing-adds g (suc rounds) seq count h = elim (Bool-cases (holds g seq)) [
  | inl held ↦ (0, ground arith, omega arith, refl)
  | inr gone ↦ elim (Bool-cases (leb g.cfg.max_retransmit_count (count + 1))) [
    | inl full ↦ (1, ground arith, omega arith, ground arith)
    | inr more ↦
        let (k, same, bound, all) =
          count_missing-adds g rounds (seq + 1) (count + 1) (ground arith) in
        (suc k, ground arith, omega (arith, bound), ground arith)
  ]
]

longer : {x : Call} {xs : List Call} → xs ≡ x ∷ xs → ⊥
longer {x} {xs} e = omega (arith, ap length e)

abbrev head_of : Call → List Call → Call
head_of d [] = d
head_of d (x ∷ xs) = x

abbrev request_in : RetransmitRequest → Call → RetransmitRequest
request_in d (retransmit r) = r
request_in d c = d

-- Either nothing is asked for, or a request is sent and its time noted.
pub check_gap_timeout-cases :
    (g : GapBuffer) (now : ℕ)
    → ((check_gap_timeout g now).calls ≡ g.calls)
      ⊎ ((0 < missing_count g)
          × ((check_gap_timeout g now).calls
              ≡ retransmit (record {
                session = g.session;
                first_seq = g.gap_start;
                count = u16 (missing_count g);
              })
                ∷ g.calls)
          × ((check_gap_timeout g now).gap_last_retx_ns ≡ now)
          × ((check_gap_timeout g now).cfg ≡ g.cfg))
unfolding check_gap_timeout
check_gap_timeout-cases g now = ground arith

-- The request that `tick` has sent, if the newest call is one.
sent_is :
    (g : GapBuffer) (now : ℕ) (req : RetransmitRequest)
    → (tick g now).calls ≡ retransmit req ∷ g.calls
    → (0 < missing_count g)
      × (record { session = g.session; first_seq = g.gap_start; count = u16 (missing_count g) }
          ≡ req)
      × ((tick g now).gap_last_retx_ns ≡ now)
      × ((tick g now).cfg ≡ g.cfg)
unfolding tick
sent_is g now req e = elim (check_gap_timeout-cases g now) [
  | inl quiet ↦ absurd (longer (sym quiet ∙ e))
  | inr (some_missing, sent, noted, kept) ↦ (
    some_missing,
    ap (λ cs. request_in req (head_of (retransmit req) cs)) (sym sent ∙ e),
    noted,
    kept,
  )
]

missing_count-bounds :
    (g : GapBuffer)
    → 1 ≤ g.cfg.max_retransmit_count
    → (missing_count g ≤ g.cfg.max_retransmit_count)
      × (missing_from g (missing_count g) g.gap_start ≡ true)
unfolding missing_count
missing_count-bounds g h =
    let (k, same, bound, all) =
      count_missing-adds g (u64 (g.gap_start + capacity) - g.gap_start) g.gap_start 0 h in
    let plain : count_missing g (u64 (g.gap_start + capacity) - g.gap_start) g.gap_start 0 ≡ k =
      omega (arith, same) in
    (omega (arith, same, bound), ap (λ n. missing_from g n g.gap_start) plain ∙ all)

-- A request that `tick` sends is for the buffer's session, starts at the first missing number, asks
-- for at least one message and at most max_retransmit_count of them, and at none of the numbers
-- that it asks for does a held-back packet start. That is for a configuration whose
-- max_retransmit_count is positive and fits 16 bits.
pub tick-request :
    (g : GapBuffer) (now : ℕ) (req : RetransmitRequest)
    → 1 ≤ g.cfg.max_retransmit_count
    → g.cfg.max_retransmit_count < 2 ^ 16
    → (tick g now).calls ≡ retransmit req ∷ g.calls
    → (req.session ≡ g.session)
      × (req.first_seq ≡ g.gap_start)
      × (0 < req.count)
      × (req.count ≤ g.cfg.max_retransmit_count)
      × (missing_from g req.count req.first_seq ≡ true)
tick-request g now req pos fit e =
    let (some_missing, same, noted, kept) = sent_is g now req e in
    let (bound, all) = missing_count-bounds g pos in
    let count : missing_count g ≡ req.count = omega (arith, bound, ap (λ r. r.count) same) in
    (
      sym (ap (λ r. r.session) same),
      sym (ap (λ r. r.first_seq) same),
      omega (arith, count, some_missing),
      omega (arith, count, bound),
      ap (missing_from g req.count) (sym (ap (λ r. r.first_seq) same))
          ∙ ap (λ n. missing_from g n g.gap_start) (sym count)
          ∙ all,
    )

not_due :
    (g : GapBuffer) (now later : ℕ)
    → g.gap_last_retx_ns ≡ now
    → 0 < now
    → now ≤ later
    → later < now + g.cfg.retry_interval_ns
    → later < 2 ^ 64
    → check_gap_timeout g later ≡ g
unfolding check_gap_timeout request_due
not_due g now later e pos le early fit = ground arith

-- After a tick that has sent a request, a second tick within the retry interval, with nothing
-- between the two, changes nothing: it sends no request. The times are positive and fit 64 bits.
pub tick_again :
    (g : GapBuffer) (now later : ℕ) (req : RetransmitRequest)
    → (tick g now).calls ≡ retransmit req ∷ g.calls
    → 0 < now
    → now ≤ later
    → later < now + g.cfg.retry_interval_ns
    → later < 2 ^ 64
    → tick (tick g now) later ≡ tick g now
tick_again g now later req e pos le early fit =
    let (some_missing, same, noted, kept) = sent_is g now req e in
    unfold tick in
    not_due (check_gap_timeout g now) now later noted pos le
      (omega (arith, early, ap (λ c. c.retry_interval_ns) kept)) fit
