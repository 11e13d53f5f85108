-- ===== src/TimeSync/Tolerance.antt =====
-- What a response measures, and which measurements are within the tolerance.
use go_norn.Prelude.{ℕ, ◌+◌, ◌*◌, ◌^◌, ◌≤◌, ◌<◌, ◌≡◌, ◌↔◌, ◌⊎◌, true, arith, ltb}
use go_norn.Prelude.Int64.{Int64, int, minus, half, modulus, InRange, add64, sub64, quot}
use go_norn.TimeSync.{TimeSyncMsg, available_threshold, abs, measured}

-- The test `abs(delta) < availableThreshold` passes for the differences strictly between -1000 and
-- 1000, and for one more: the least int64, which is its own negation.
pub abs_lem :
    (d : Int64)
    → InRange d
    → (ltb (abs d) (int available_threshold) ≡ true)
      ↔ ((minus available_threshold < d) × (d < int available_threshold)) ⊎ (d ≡ 0)
abs_lem d h = (λ e. ground arith, λ e. ground arith)

sub64-signed :
    (a b x y : ℕ)
    → InRange a
    → InRange b
    → a + y ≡ b + x
    → x < 2 ^ 62
    → y < 2 ^ 62
    → sub64 a b + y ≡ half + x
sub64-signed a b x y ha hb e hx hy = omega arith

quot-signed :
    (d x y : ℕ)
    → d + y ≡ half + x
    → (2 * quot d 2 + y ≤ 2 * half + x + 1) × (2 * half + x ≤ 2 * quot d 2 + y + 1)
quot-signed d x y e = ground arith

-- Two halves that are small enough add up without a wrap.
add64-signed : (p q : ℕ) → half ≤ p + q → p + q < half + modulus → add64 p q + half ≡ p + q
add64-signed p q l u = omega arith

-- An exchange of which the peer's clock is `ahead - behind` ahead of the node's, the request takes
-- `there`, the peer `work` and the response `back`, all but `work` below 2 ^ 60 and no clock beyond
-- the range: twice the measured difference is the difference of the clocks, twice, plus `there - back`,
-- up to 2. So the error is half the asymmetry of the delays, and one for rounding.
pub measured-accurate :
    (msg : TimeSyncMsg) (ahead behind there work back : ℕ)
    → InRange msg.req_time
    → InRange msg.rec_req_time
    → InRange msg.rsp_time
    → InRange msg.rec_rsp_time
    → msg.rec_req_time + behind ≡ msg.req_time + ahead + there
    → msg.rsp_time ≡ msg.rec_req_time + work
    → msg.rec_rsp_time ≡ msg.req_time + there + work + back
    → ahead < 2 ^ 60
    → behind < 2 ^ 60
    → there < 2 ^ 60
    → back < 2 ^ 60
    → (2 * measured msg + back + 2 * behind ≤ 2 * half + 2 * ahead + there + 2)
      × (2 * half + 2 * ahead + there ≤ 2 * measured msg + back + 2 * behind + 2)
measured-accurate msg ahead behind there work back r1 r2 r3 r4 e1 e2 e3 ba bb bt bk =
    let d1 =
      sub64-signed msg.rsp_time msg.rec_rsp_time ahead (behind + back) r3 r4 (omega arith)
        (omega arith) (omega arith) in
    let d2 =
      sub64-signed msg.rec_req_time msg.req_time (ahead + there) behind r2 r1 (omega arith)
        (omega arith) (omega arith) in
    let q1 = quot-signed (sub64 msg.rsp_time msg.rec_rsp_time) ahead (behind + back) d1 in
    let q2 = quot-signed (sub64 msg.rec_req_time msg.req_time) (ahead + there) behind d2 in
    let s =
      add64-signed (quot (sub64 msg.rsp_time msg.rec_rsp_time) 2)
        (quot (sub64 msg.rec_req_time msg.req_time) 2) (omega (arith, q1.1, q2.1))
        (omega (arith, q1.0, q2.0)) in
    (omega (arith, s, q1.0, q2.0), omega (arith, s, q1.1, q2.1))
