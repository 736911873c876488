-- ===== src/Gocache/Tests/Serving.antt =====
-- addons/gocache/server.go: a get, an unknown command and the close, the first answered last.
use gdev.Base.{String, refl, true, none, [], ◌∷◌, ◌⊎◌, inr}
use gdev.Gocache.Server.{
  cmd_get, cmd_close, cmd_unknown, ServerRequest, ServerResponse, Server, plain_response,
  new_server, accept, finish, answer, close_server, ServerReach, begin, after, accepting, finishing,
  closing,
}
use gdev.Gocache.Server.Responses.{IsRun, ServerReach-IsRun}

abbrev echo : ServerRequest → String ⊎ ServerResponse
echo r = inr (plain_response r.id)

abbrev get_1 : ServerRequest
get_1 = record { id = 1; command = cmd_get }

abbrev odd_2 : ServerRequest
odd_2 = record { id = 2; command = cmd_unknown "odd" }

abbrev close_3 : ServerRequest
close_3 = record { id = 3; command = cmd_close }

abbrev last : Server
last = close_server echo none close_3 (
    finish echo [] get_1 []
      (finish echo (get_1 ∷ []) odd_2 [] (accept echo odd_2 (accept echo get_1 (new_server true)))))

last-ServerReach : ServerReach echo true last
unfolding accept finish answer new_server
last-ServerReach =
    after
      (after
        (after
          (after (after begin (accepting get_1 (λ e. cc) refl)) (accepting odd_2 (λ e. cc) refl))
          (finishing (get_1 ∷ []) odd_2 [] refl))
        (finishing [] get_1 [] refl))
      (closing none close_3 refl refl refl)

ServerReach-IsRun_example : IsRun echo last
unfolding close_server accept finish answer new_server
ServerReach-IsRun_example = ServerReach-IsRun echo true last last-ServerReach refl
