-- ===== src/Transfer/Units.antt =====
-- src/transfer/units.rs: sizes and durations for a reader. A formatted number is kept as the number
-- and its unit.
use kvflow_sim.Base.{ℕ, leb, if◌then◌else◌}
use kvflow_sim.Float.{Float}

-- `"{:.2} GiB"`, `"{:.2} MiB"`, `"{:.2} KiB"` and `"{} B"`.
pub data Bytes (F : Type 0) : Type 0 where
  gib : F → Bytes F
  mib : F → Bytes F
  kib : F → Bytes F
  b : ℕ → Bytes F

-- `"{:.3} s"`, `"{:.3} ms"`, `"{:.3} us"` and `"{} ns"`.
pub data Duration (F : Type 0) : Type 0 where
  s : F → Duration F
  ms : F → Duration F
  us : F → Duration F
  ns : ℕ → Duration F

module _ {F : Type 0} (float : Float F) where
  unfoldable pub format_bytes : ℕ → Bytes F
  format_bytes bytes =
      let kibibyte = float.of_nat 1024 in
      let mebibyte = float.◌*◌ kibibyte (float.of_nat 1024) in
      let gibibyte = float.◌*◌ mebibyte (float.of_nat 1024) in
      let size = float.of_nat bytes in
      if float.leb gibibyte size
      then gib (float.◌/◌ size gibibyte)
      else if float.leb mebibyte size
      then mib (float.◌/◌ size mebibyte)
      else if float.leb kibibyte size
      then kib (float.◌/◌ size kibibyte)
      else b bytes

  unfoldable pub format_ns : ℕ → Duration F
  format_ns t =
      if leb 1_000_000_000 t
      then s (float.◌/◌ (float.of_nat t) (float.of_nat 1_000_000_000))
      else if leb 1_000_000 t
      then ms (float.◌/◌ (float.of_nat t) (float.of_nat 1_000_000))
      else if leb 1_000 t
      then us (float.◌/◌ (float.of_nat t) (float.of_nat 1_000))
      else ns t
