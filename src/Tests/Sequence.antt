-- ===== src/Tests/Sequence.antt =====
-- The theorems on calls in sequence, at the demo's ring and at a new register file.
use axi_dma_engine.Base.{
  ◌≡◌, ◌<◌, ◌^◌, refl, List, [], ◌∷◌, true, arith, ok, err, some, ring_full, nothing_pending,
}
use axi_dma_engine.Csr
use axi_dma_engine.Descriptor
use axi_dma_engine.Csr.Width.{Event, happen_all, registers_bounded}
use axi_dma_engine.RingManager.Sequence.{
  Call, Reply, calls, spec_call, spec_calls, Stands, calls_refine,
}
use axi_dma_engine.AxiMaster
use axi_dma_engine.Golden.{drain_axi_dm}
use axi_dma_engine.Golden.Calm.{calm}
use axi_dma_engine.Golden.Drains.{Ends, drain_axi_dm-Ends}
use axi_dma_engine.Golden.NoStallRun.{run_scenario-calm}
use axi_dma_engine.Golden.Scenario
use axi_dma_engine.Golden.Scenario.{run_scenario}
use axi_dma_engine.Tests.Demo
use axi_dma_engine.Tests.Witnesses.{ring-IsValid, ring-IsQuiet, out-IsValid}

abbrev turns : List Call
turns =
    Call.enqueues Demo.desc_out
    ∷ Call.completes
    ∷ Call.enqueues Demo.desc_out
    ∷ Call.fetches 255
    ∷ Call.completes
    ∷ Call.completes
    ∷ Call.completes
    ∷ []

calls_refine_example :
    ((calls turns (Demo.ring 2)).0
      ≡ Reply.of_enqueue (err ring_full)
        ∷ Reply.of_complete (ok tt)
        ∷ Reply.of_enqueue (ok Demo.desc_out)
        ∷ Reply.of_fetch (ok (some Demo.desc_back))
        ∷ Reply.of_complete (ok tt)
        ∷ Reply.of_complete (ok tt)
        ∷ Reply.of_complete (err nothing_pending)
        ∷ [])
    × Stands 3 0 [] (calls turns (Demo.ring 2)).1
unfolding spec_calls spec_call Descriptor.new
calls_refine_example =
    calls_refine 3 0 turns (Demo.desc_out ∷ Demo.desc_back ∷ []) (Demo.ring 2)
      (out-IsValid, (tt, (out-IsValid, (tt, (tt, (tt, (tt, tt)))))))
      (record { valid = ring-IsValid 2 (omega arith); quiet = ring-IsQuiet; holds = refl })

registers_bounded_example :
    (happen_all
        (Event.writes Csr.reg_ctrl 0xff ∷ Event.sets_busy true ∷ Event.sets_error ∷ [])
        Csr.new).regs
      Csr.reg_ctrl
    < 2 ^ 3
registers_bounded_example =
    registers_bounded
      (Event.writes Csr.reg_ctrl 0xff ∷ Event.sets_busy true ∷ Event.sets_error ∷ []) Csr.reg_ctrl

-- a handle that is not aligned, and a scenario whose descriptor is not
drain_axi_dm-Ends_example :
    Ends AxiMaster.idle (drain_axi_dm 2 (Demo.master (3 ∷ []) (2 ^ 32 ∷ []) []))
drain_axi_dm-Ends_example =
    drain_axi_dm-Ends 2 (Demo.master (3 ∷ []) (2 ^ 32 ∷ []) []) (omega arith)

run_scenario-calm_example :
    calm (
      run_scenario
        (Scenario.Row.csr_ringlen 2 ∷ Scenario.Row.desc 1 0 200 1 ∷ Scenario.Row.enable ∷ [])
        16
        4)
    ≡ true
run_scenario-calm_example =
    run_scenario-calm
      (Scenario.Row.csr_ringlen 2 ∷ Scenario.Row.desc 1 0 200 1 ∷ Scenario.Row.enable ∷ []) 16 4
