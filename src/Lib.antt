-- ===== src/Lib.antt =====
-- AXI DMA engine: the software model of the engine, and the host side of its serial link.
--
-- The engine moves words between a system memory and a local SRAM. Software puts descriptors into
-- a ring in the system memory and advances TAIL; the engine fetches the descriptor at HEAD, moves
-- its words through the MID FIFO by one instruction for the AXI master and one for the SRAM
-- controller, and advances HEAD. The Python model under source/ has one object per block of the
-- RTL, and sim/run_golden.py runs them on a scenario to produce the reference results.
--
-- Files, with what they model:
--   Fifo             source/fifo_queue.py, the bounded queues between the blocks
--   Memory           source/memory.py and source/sram.py, and Python's indexing of their lists
--   Descriptor       source/descriptor.py, four words packed into 128 bits
--   Csr, Irq         source/csr.py and source/irq.py, the registers and the interrupts; Csr/Width
--                    has their widths
--   AxiLite          source/axi-lite.py, the register port with its counters
--   AxiMaster        source/axi_4_master.py: process_one serves a handle or an instruction
--   SramController   source/sram_controller.py: process_one serves an instruction
--   DescriptorFetcher, DataMover   the ports to the AXI master
--   RingManager      source/ringManager.py; RingManager/Refine has the queue it stands for, and
--                    RingManager/Sequence its calls in any order
--   Golden           sim/run_golden.py: Golden/Scenario the rows and run_scenario, Golden/Loop
--                    the replay of a ring that the event loop is compared with, Golden/Setup
--                    the rows that set the ring up, Golden/Load those that fill the memories, and
--                    Golden/Run a whole scenario; Golden/Drains and Golden/NoStallRun are
--                    about the bounds of the drains; Golden/Table has the cells of a scenario,
--                    Golden/Files the files that are written, and Golden/Apart and Golden/Clean
--                    are about descriptors that do not touch one another's words
--   Host             firmware&local/serial_host.py: packets, acknowledgements, register and
--                    memory access over the serial link; Host/Session and Host/Main are the
--                    run against the board, Host/Checks and Host/Compares are about its checks
--                    at a far side that serves the commands, Host/Files has the files that are
--                    read, and Host/Transfers, Host/Mirror and Host/Expect are about what
--                    host_runner.py reads out of a stimulus
--   Firmware         firmware&local/uart_read_write.c: the loop that serves the commands;
--                    Firmware/Serves is about it as the far side of the link
--   HostRunner       firmware&local/host_runner.py: the stimulus sent and the transfers checked;
--                    HostRunner/FarSide says what the theorems ask of the far side,
--                    HostRunner/Files has the lines of stim.txt, HostRunner/Scenario and
--                    HostRunner/Outcome are about scenarios of the golden model, and
--                    HostRunner/Table and HostRunner/Shown about the live table
--   Viz              firmware&local/viz.py, the tables of expected and actual words; Viz/Render has
--                    what they show
--   Text             Python's texts, lines, numbers and formats
--   Base             lists, words, and the calls that return or raise; Tests runs the model
--
-- A method that raises, or changes its object, is an Action: a function of the state that gives
-- the result or the error and the state that is left, since what was written before a raise
-- stays. The names are the source's without the leading underscore. An object that several
-- components share stands once: the RingManager record holds the AxiMaster record with the memory
-- and the queues, System holds both controllers' state, and a component's call acts on its view.
-- `x & (2 ** w - 1)` is `mask w x`, shifts are products and quotients by powers of 2.
--
-- Loops: fetch_loop n is the wait of fetch_next_descriptor with n of its 256 steps left; one step
-- is enough when nothing else is queued. The drains have 512 steps, of which each burst takes one.
-- event_loop n is the loop with n of its 1000 rounds left; one round more than descriptors are
-- pending is enough, since the round that finds the ring empty counts too. At 0 each of them does
-- what the source does when its bound is passed. The wait of serial_host.py ends by the clock: its
-- bound is the number of reads that begin before the deadline. The wait of host_runner.py has no
-- bound in the source: it reads until no byte arrives, so it is given a number of reads, and one
-- more than bytes arrive is enough.
--
-- Texts are lists of character codes, of ASCII where they are read; Text has what Python does with
-- them. A file is its text behind the translation of line ends.
--
-- Not modelled: a negative index or ring length in a scenario and a negative register offset in a
-- stimulus (the model ends there with negative_number, where Python may go on), csv.reader and
-- json.loads (their results are the input), the console, sim/test_esp32.py, the RTL but for the
-- indexing of the two memories, the firmware but for the command loop, in which RUN_DMA is a
-- parameter, and the build files.
pub mod Base
pub mod Fifo
pub mod Memory
pub mod Descriptor
pub mod Csr
pub mod Irq
pub mod AxiLite
pub mod AxiMaster
pub mod SramController
pub mod DescriptorFetcher
pub mod DataMover
pub mod RingManager
pub mod Golden
pub mod Viz
pub mod Firmware
pub mod Host
pub mod HostRunner
pub mod Text
pub mod Tests
