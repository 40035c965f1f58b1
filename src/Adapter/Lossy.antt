-- ===== src/Adapter/Lossy.antt =====
-- libsponge/tcp_helpers/lossy_fd_adapter.hh: random loss around another adapter. The adapter is
-- given by its operations; the numbers that the generator yields are a parameter, of which the
-- state counts those that were drawn. `random_device` seeds it.
use tcp_lab.Base.{
  ℕ, suc, ◌%◌, ◌^◌, Bool, true, false, not, Option, none, ltb, ◌==◌, if◌then◌else◌, Result, ok,
  ◌>>=◌,
}
use tcp_lab.Wire.TcpSegment.{TcpSegment}

-- The operations of the adapter `A`: what `read` returns for what the device holds, and what
-- `write` leaves of the adapter and the segment.
pub record FdAdapter (A Device : Type 0) : Type 0 where
  pub read : A → Device → Result (A × Option TcpSegment)
  pub write : A → TcpSegment → Result (A × TcpSegment)
  pub tick : A → ℕ → Result A
  pub set_listening : A → Bool → A

pub record LossyFdAdapter (A : Type 0) : Type 0 where
  pub adapter : A
  pub loss_rate_up : ℕ
  pub loss_rate_dn : ℕ
  pub drawn : ℕ

module _ {A Device : Type 0} (ops : FdAdapter A Device) (rand : ℕ → ℕ) where
  -- `_should_drop(uplink)`, with the number of draws afterwards.
  unfoldable pub should_drop : LossyFdAdapter A → Bool → LossyFdAdapter A × Bool
  should_drop l uplink =
      let loss = if uplink then l.loss_rate_up else l.loss_rate_dn in
      if not (loss == 0)
      then (record l { drawn = suc l.drawn }, ltb (rand l.drawn % 2 ^ 16) loss)
      else (l, false)

  unfoldable pub read : LossyFdAdapter A → Device → Result (LossyFdAdapter A × Option TcpSegment)
  unfolding should_drop
  read l device = do
    (a, ret) ← ops.read l.adapter device
    let d = should_drop (record l { adapter = a }) false
    ok (d.0, if d.1 then none else ret)

  unfoldable pub write : LossyFdAdapter A → TcpSegment → Result (LossyFdAdapter A × TcpSegment)
  unfolding should_drop
  write l seg =
      let d = should_drop l true in
      let written = (do
        (a, seg') ← ops.write l.adapter seg
        ok (record d.0 { adapter = a }, seg')) in
      if d.1 then ok (d.0, seg) else written

  -- `set_listening` and `tick` pass through.
  unfoldable pub set_listening : LossyFdAdapter A → Bool → LossyFdAdapter A
  set_listening l b = record l { adapter = ops.set_listening l.adapter b }

  unfoldable pub tick : LossyFdAdapter A → ℕ → Result (LossyFdAdapter A)
  tick l ms = do a ← ops.tick l.adapter ms; ok (record l { adapter = a })
