-- ===== src/CircularBuffer/UnitTest/Tests.antt =====
-- The tests on blocks of zeros.
use mutiplex.Base.{◌≡◌, true, ok}
use mutiplex.Base.Memory.{Bytes}
use mutiplex.Base.Samples.{zero_heap, length-zeros}
use mutiplex.CircularBuffer.UnitTest.{test_circular_buffer, test_resize_0, test_resize_1}
use mutiplex.CircularBuffer.UnitTest.Passing.{tests-pass}

abbrev hundred : Bytes
hundred = zero_heap.malloc 100

abbrev block : Bytes
block = zero_heap.malloc 128

tests-pass_example :
    (test_circular_buffer zero_heap 10000 hundred hundred ≡ ok true)
    × (test_resize_0 zero_heap hundred hundred ≡ ok true)
    × (test_resize_1 zero_heap block block ≡ ok true)
tests-pass_example =
    tests-pass zero_heap 10000 hundred hundred (length-zeros 100) (length-zeros 100) block block
      (length-zeros 128) (length-zeros 128)
