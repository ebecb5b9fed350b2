-- ===== src/Rules.antt =====
-- The detection rule engine, app/detect/rules.py: values, tokens, the evaluating parser.
pub mod Values
pub mod Tokens
pub mod Results
pub mod Operators
pub mod Parser
pub mod Engine
pub mod Validation
mod Tests
