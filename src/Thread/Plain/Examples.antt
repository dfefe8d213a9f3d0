-- ===== src/Thread/Plain/Examples.antt =====
-- A producer and a consumer.
use learn_for_cpp.Base.{◌≡◌, refl, some, [], ◌∷◌}
use learn_for_cpp.Thread.Plain.{Queue, put_item, take_item, wait_and_pop, size}

abbrev two : Queue
two = put_item (put_item [] 3) 4

takes_first : take_item two ≡ some (3, 4 ∷ [])
unfolding take_item put_item
takes_first = refl

waits_first : wait_and_pop two ≡ some (3, 4 ∷ [])
unfolding wait_and_pop put_item
waits_first = refl

has_two : size two ≡ 2
unfolding size put_item
has_two = refl

abbrev both : Queue
both = 3 ∷ 4 ∷ []

abbrev first : Queue
first = 3 ∷ []
