-- ===== src/Js.antt =====
-- The values of JavaScript that the JSON bodies, the configuration and the errors of the program
-- hold, and what the language does with them. `Js/Value` has the data, `Js/Text` the text
-- functions, `Js/Number` the conversions to a number.
pub mod Value
pub mod Text
pub mod Number
pub mod Iterate
pub mod Num
pub mod Date
