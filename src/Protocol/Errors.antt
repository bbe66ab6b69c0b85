-- ===== src/Protocol/Errors.antt =====
-- The error values of core/internal/protocol: ProtocolError by its message (core/errors/errors.go),
-- and `io` for whatever the reader itself returns (io.EOF, io.ErrUnexpectedEOF).
pub data Error : Type 0 where
  io : Error
  invalid_address_length invalid_padding_length invalid_message_length : Error
