-- ===== src/Logger/RecordedTests.antt =====
-- The message of the unit test parser_add_order and a packet that is too short, on their way to the log.
use market_data_parser.Common.{◌≡◌, refl, List, [], ◌∷◌, length, arith}
use market_data_parser.Common.Bytes.{address, address-IsMemory}
use market_data_parser.Wire.MessageType.{from_byte}
use market_data_parser.Parser.{ParsedMessage, parse, parse_add_order}
use market_data_parser.Parser.Tests.{tsc, order_bytes, order-IsMemory}
use market_data_parser.Queue.{construct}
use market_data_parser.Logger.{WriteMode}
use market_data_parser.Logger.Buffered.{bytes_of}
use market_data_parser.Logger.ReadBack.{read_log}
use market_data_parser.Logger.Session.{Served}
use market_data_parser.Logger.Recorded.{
  Packet, Arrival, arrives, idles, log_parsed, accepted_bytes, wire_formats, read_log-log_parsed,
}
use market_data_parser.Logger.SessionTests.{created, created-IsStopped, disk-IsFile}
use market_data_parser.Logger.Tests.{disk, file, slack}

abbrev order_packet : Packet
order_packet = record { bytes = address order_bytes; length = 38; tsc = tsc }

abbrev short_packet : Packet
short_packet = record { bytes = address (1 ∷ 2 ∷ 3 ∷ []); length = 3; tsc = tsc }

abbrev arrivals : List Arrival
arrivals = arrives 0 order_packet ∷ arrives 1 short_packet ∷ idles 0 ∷ idles 2 ∷ []

-- Only the bytes of the first packet are expected.
order_expected : accepted_bytes arrivals ≡ order_bytes ∷ []
unfolding parse from_byte parse_add_order
order_expected = refl

read_log-log_parsed_example :
    (accepted : List ParsedMessage) × (s : Served disk slack file disk-IsFile
      (created WriteMode.buffered)
      (log_parsed arrivals)
      2000000
      (λ i. 1)
      accepted)
    × (wire_formats (read_log (length accepted) (file s.final.world)) ≡ accepted_bytes arrivals)
    × (length (file s.final.world) ≡ length (bytes_of accepted))
unfolding construct
read_log-log_parsed_example =
    read_log-log_parsed disk slack file disk-IsFile (created WriteMode.buffered) arrivals 2000000
      (λ i. 1) created-IsStopped refl
      (order-IsMemory, (address-IsMemory (1 ∷ 2 ∷ 3 ∷ []) (omega arith), tt)) (omega arith)
      (omega arith) (omega arith) (omega arith)
