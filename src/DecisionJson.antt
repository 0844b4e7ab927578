-- ===== src/DecisionJson.antt =====
-- models/decision_json.h (src/DesireeIA.LocaleEngine/src): the JSON values of the decision models,
-- their parser and their writer. A text is a list of bytes. A number keeps its source text, and
-- its floating-point value is left out. The position of the C++ parser is what is left of
-- the text. The functions that call each other take a bound on the depth of their calls.
pub mod Values
pub mod Writer
pub mod Text
pub mod Parser
pub mod Fits
pub mod Ends
pub mod Strings
pub mod Readable
pub mod Starts
pub mod Steps
pub mod RoundTrip
mod Tests
