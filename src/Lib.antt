-- ===== src/Lib.antt =====
-- The C drills of this repository, modelled file by file. Each program stands alone: there is no
-- shared code between them, except that the two rings promise the same thing, a bounded first-in
-- first-out queue, which Queue.antt states and Queue/Client.antt turns into an interface of two
-- calls and a run of any calls on it.
--
-- Parts, with the file of the repository and the file here:
--
-- Ring.antt is SPSC_Ring_buffer/rb.c. struct Ring is the record Ring; init_ring, kill_ring,
-- ring_write, ring_read and next_pow2 are the functions of those names. Ring/Threads.antt cuts
-- the calls of the producer and the consumer thread into their single accesses of shared memory
-- and interleaves them in any order (sequentially consistent; the memory orders of the source
-- are not modelled).
--
-- RegionTable.antt is Interview/mock1.c: region_add with its five codes, and translate.
--
-- Messages.antt is Interview/mock4.c: parse_msgs and the globals that handle_msg writes.
-- Messages/Wire.antt is the wire format on its own.
--
-- TicTacToe.antt is Interview/builds/01-tictactoe/tictactoe.c: the board, the win test, and the
-- loop of main on the lines typed. TicTacToe/Tests.antt has the blocks of test_tictactoe.
--
-- ParkingLot.antt is Interview/leetcode/08-parking-lot.c: create_lot, assigner, deassigner,
-- free_spots. ParkingLot/Tests.antt has the calls of main.
--
-- BoundedBuffer.antt is Interview/bounded_buffer.c: bq_init with its failure paths and
-- bq_destroy, on the queue and the number of blocks that are allocated and not freed; bq_put and
-- bq_get, from a test of the while on. BoundedBuffer/Threads.antt runs the producers and the
-- consumers of main in any order, one call on the queue at a time, since a call holds the mutex:
-- a wait puts the thread to sleep, a signal wakes one sleeping thread that the schedule picks,
-- and a wait may end by itself. The read and the write of seen[v] += 1, outside the mutex, are
-- turns of their own.
--
-- Rcu.antt is Interview/mock1_rcu.c: lookup, and region_add up to the new table. Rcu/Grace.antt
-- cuts the readers' translate and the writer's region_add into their accesses of shared memory
-- and interleaves them in any order, with a heap of tables that free empties.
--
-- FutexMutex.antt is concurrency/01-mutex/mutex.c: my_lock, my_unlock and the loop of worker as
-- the data type Step, one access or futex call at a time, for any number of threads. A futex
-- wait sleeps only while the word is 2 and may end by itself; a wake ends one of the waits, if
-- there is one.
--
-- Sudoku.antt is Interview/leetcode/12-sudoku-validator.c: sudoku_valid_v0 with its three loop
-- nests, and sudoku_valid with the gatherers. A board is the list of its cells.
-- Sudoku/Tests.antt has the blocks of main.
--
-- LockRing.antt is SPSC_Ring_buffer/rb_lock.c: the calls that do not block, on a record of
-- rb.c's struct Ring and the state of the mutex. LockRing/Selftest.antt has test_single_thread
-- and main up to it; LockRing/Threads.antt has ring_write and ring_read as the two threads call
-- them, cut where the mutex is taken, given back or waited with.
--
-- Shipping.antt is Interview/leetcode/13-ship-packages.c: can_ship and ship_within_days. Weights
-- are natural numbers; a sum that does not fit an int is none. Shipping/Plain.antt has the same
-- functions without that test, for lists whose sum fits.
--
-- Cas.antt is concurrency/04-cas/cas.c: my_add and my_max as the workers call them, an access of
-- the counter at a time, for any number of threads, with weak compare-and-swaps that fail by
-- themselves.
--
-- Base has what the parts share: Boolean tests, lists that are measured and indexed by native
-- numbers, integers, words of 64 bits with their bit operations, and functions updated at one
-- point (Base/Update.antt).
--
-- Conventions. A function that writes through a pointer returns the new object. An access
-- outside an array, and a failed assert, is none. uint64_t, size_t and uint16_t sums and
-- products wrap where the source's can; int coordinates of the board do not come near their
-- limits. The loops run on a count that the source's own bound gives: seven rounds for the
-- shifts of next_pow2, one round for each byte for parse_msgs (each message has four bytes at
-- least), one round more than the table has regions for the lookup of mock1_rcu.c, one round
-- more than the board has rows for count_dir, one round more than the range is long for
-- ship_within_days, one read more than the capacity for the last loop of test_single_thread.
--
-- Mutexes, condition variables and the futex are the platform's: the models of the threads have
-- their documented behaviour in their steps. Allocators, calloc and, in BoundedBuffer, the
-- pthread initialisations are parameters; what they document (a block of the size asked for,
-- zeroed by calloc) is a hypothesis where it is needed.
--
-- Not modelled: printing, timing, thread creation, the parsing of arguments by strtol, and the
-- freeing of memory except in BoundedBuffer and Rcu/Grace or where a field is reset. The
-- programs that no file here names are not modelled.
pub mod Base
pub mod Queue
pub mod Ring
pub mod RegionTable
pub mod Messages
pub mod Sudoku
pub mod TicTacToe
pub mod ParkingLot
pub mod BoundedBuffer
pub mod LockRing
pub mod Shipping
pub mod Cas
pub mod Rcu
pub mod FutexMutex
