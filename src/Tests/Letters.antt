-- ===== src/Tests/Letters.antt =====
-- A key and a frame of the typing game on a concrete set of letters.
use ic_competition.Base.{◌==◌, if◌then◌else◌, pos}
use ic_competition.Kernels.Typing.{Game}

-- Two letters A, the second one lower.
abbrev letters : Game
letters = record {
  chars = λ i.
      if i == 0
      then record { ch = b'A'; x = 8; y = pos 20; v = pos 3; t = 0 }
      else if i == 1
      then record { ch = b'A'; x = 40; y = pos 90; v = pos 2; t = 0 }
      else record { ch = 0; x = 0; y = pos 0; v = pos 0; t = 0 };
  hit = 0;
  miss = 0;
  wrong = 0;
}
