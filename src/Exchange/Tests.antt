-- ===== src/Exchange/Tests.antt =====
-- A scene that is sent, and refused at another place, over pieces of three and of five bytes.
use distray.Base.{◌≡◌, List, [], ◌∷◌, some, arith, codes, replicate}
use distray.Drp.{Request}
use distray.Drp.Encoding.{codec_of, request, response}
use distray.Wire.Outgoing
use distray.Wire.Incoming
use distray.Wire.Incoming.Safety.{IsValid}
use distray.Worker.{handle}
use distray.Worker.Tests.{machine, disk, put}
use distray.Exchange.{Turn, converse, calls, converse-calls}

abbrev turn : Request → Turn
turn r = record { request = r; sends = replicate 80 3; receives = replicate 80 5 }

abbrev turns : List Turn
turns = turn (put (codes "in")) ∷ turn (put (codes "../in")) ∷ []

empty-IsValid_here : IsValid Incoming.empty
unfolding Incoming.empty
empty-IsValid_here = ground arith

converse-calls_example :
    converse machine (codec_of request) (codec_of response) turns Outgoing.empty Incoming.empty disk
    ≡ some (calls machine (codec_of request) (codec_of response) turns disk)
unfolding handle
converse-calls_example =
    converse-calls machine (codec_of request) (codec_of response) turns Outgoing.empty
      Incoming.empty disk empty-IsValid_here
      (
        (λ e. cc),
        omega arith,
        omega arith,
        omega arith,
        omega arith,
        omega arith,
        omega arith,
        (
          (λ e. cc),
          omega arith,
          omega arith,
          omega arith,
          omega arith,
          omega arith,
          omega arith,
          tt,
        ),
      )
