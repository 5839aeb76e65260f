-- ===== src/AppError.antt =====
-- src/error.rs: the error type of the application.
use v3_node.Base.{String}

-- `io` carries an error of the standard library, whose type is a parameter.
pub data AppError (Io : Type 0) : Type 0 where
  network : String → AppError Io
  io : Io → AppError Io
  config : String → AppError Io
  database : String → AppError Io
  other : String → AppError Io
