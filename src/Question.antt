-- ===== src/Question.antt =====
-- forest/core.py, class `QuestionBot`: the questions that a bot asks of a user. Pending is the
-- futures that wait for an answer, Loops the questions that are asked again until the answer is
-- clear.
pub mod Address
pub mod Challenge
pub mod Choice
pub mod Loops
pub mod Numbers
pub mod Pending
pub mod Reask
pub mod Users
mod Tests
