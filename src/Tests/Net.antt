-- ===== src/Tests/Net.antt =====
-- Frames of the WebSocket transport (src/net/websocket.cpp).
use chess_engine.Base.{◌≡◌, true, [], ◌∷◌, ◌++◌, arith}
use chess_engine.Net.Frame.{read_next_frame, write_frame, frame, too_large, length_bytes}
use chess_engine.Net.RoundTrip.{read_next_frame-write_frame, read_next_frame-too_large}
use chess_engine.Net.Masked.{masked_frame, read_next_frame-masked_frame}

-- "hi" as text, and a byte of the next frame.
read_next_frame-write_frame_example :
    read_next_frame (write_frame 1 (104 ∷ 105 ∷ []) ++ (129 ∷ []))
    ≡ (frame (record { fin = true; opcode = 1; payload = 104 ∷ 105 ∷ [] }), 129 ∷ [])
read_next_frame-write_frame_example =
    read_next_frame-write_frame 1 (104 ∷ 105 ∷ []) (129 ∷ []) (omega arith) (omega arith)

read_next_frame-masked_frame_example :
    read_next_frame (masked_frame 1 1 2 3 4 (104 ∷ 105 ∷ []) ++ (129 ∷ []))
    ≡ (frame (record { fin = true; opcode = 1; payload = 104 ∷ 105 ∷ [] }), 129 ∷ [])
read_next_frame-masked_frame_example =
    read_next_frame-masked_frame 1 1 2 3 4 (104 ∷ 105 ∷ []) (129 ∷ []) (omega arith) (omega arith)

-- A masked binary frame of a megabyte: its length, the key and the first byte of its payload.
read_next_frame-too_large_example :
    read_next_frame (130 ∷ 255 ∷ (length_bytes 8 1048576 ++ (1 ∷ 2 ∷ 3 ∷ 4 ∷ 7 ∷ [])))
    ≡ (too_large, 130 ∷ 255 ∷ (length_bytes 8 1048576 ++ (1 ∷ 2 ∷ 3 ∷ 4 ∷ 7 ∷ [])))
read_next_frame-too_large_example =
    read_next_frame-too_large 130 255 1048576 (1 ∷ 2 ∷ 3 ∷ 4 ∷ 7 ∷ []) (omega arith) (omega arith)
      (omega arith)
