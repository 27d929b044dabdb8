-- ===== src/Lib.antt =====
-- The chat widget of the repository: static/widget/widget.js, the script that a site embeds. It
-- builds a chat panel, sends the visitor's messages to the backend, shows the answers as they are
-- streamed, and renders their Markdown. static/widget.js is an older copy of the program, and the
-- skins static/widget/widget-*.js are restyled ones. The backend (chat, rag, config) is not
-- modelled.
--
-- The parts, and how the files stand to the code:
--
-- - Prelude: shared names, Boolean tests, lists measured by native numbers.
-- - Text: JavaScript strings as lists of UTF-16 code units, with the string methods that the widget
--   calls. Text/Laws: equality of texts.
-- - Notice: the Persian messages of the widget, by name; their texts are in Notice/Words.
-- - Escape: escapeHtml. Escape/Laws: what it promises.
-- - Markdown: renderMarkdown and its helpers. Lines has the patterns tested on a line, Inline and
--   Links renderInline, Table renderTable and renderCodeBlock, Blocks the loop over the lines.
--   Safe, Cuts and Patterns are about tags, Rounds, Balance and Fences about blocks. The browser's
--   verdict on an address (isSafeUrl) and the random ids of code blocks are parameters.
-- - Sse: the cutting of the response into events, in streamChat. Sse/Frames and Sse/Wire: its laws.
-- - Stream: streamChat. Stream has the typewriter (paintStep, ensurePaint, finishUp), Stream/Reader
--   the events, the end and the failure of the response. A step of the browser is a function on the
--   closure's variables. Stream/Typing, Inputs and Received are the proofs. JSON.parse is a parameter.
-- - Exchange: streamChat from the chunks of the response to the conversation. Exchange/Cuts takes chunks
--   for events, Handed says what the typewriter hands on, Delivered is the proof. Exchange/Endings is how
--   streamChat and sendText go on once the response is over or has failed, on the whole widget; Replies,
--   Saved and Settled are the proofs. It joins Sse, Stream, Answer and Chat.
-- - Chat: updateSendState, setLoading, send, sendText, _setBlocked, handleAnswerResult and the send
--   button. Chat/Steps is the relation of what user, network and timers can do, Chat/Invariant and
--   Chat/Lock prove what holds.
-- - Panel: open, close, toggle, Escape, the teaser, the unread badge, the flashing title and the
--   contact sheet. Panel/Steps is the relation of what can happen, Panel/Tidy and Panel/Unread
--   are the proofs.
-- - Backend: callBackend, the check of a stream's response, and the conversation's ids. Backend/Errors
--   and Backend/Saved are the proofs.
-- - History: addMessage and saveLocalHistory; History/Local: restoreLocalHistory and the list in
--   restoreHistory. History/Steps is the relation of what can happen, with the interface of an
--   invariant (IsKept) that Bounds and Newest fill; Restored is about restoreLocalHistory. The text
--   of a rendered bubble and the calendar are the browser's.
-- - Layout: clamp, applyThemeVars, applyTheme, applyVisuals and the theme button. Layout/Theme is
--   the proof. Sizes are whole numbers.
-- - Contact: the fields and the sending of buildContactForm. Contact/Valid and Contact/Sent are the
--   proofs.
-- - Config: boot, the constructor's options, the endpoints and getHeaders. Config/Values has options
--   objects, Defaults the table DEFAULTS, Remote loadConfig, Preview applyConfig. Priority states loadConfig
--   against a specification of who decides on an option; Endpoints, Kinds and Typed are further proofs.
--   URL, String and Number are parameters.
-- - Display: what is drawn of the options, in mount, loadConfig and applyConfig, and bindPreviewChannel.
--   Display/Fresh and Display/Stale are the proofs. It uses Config, Links, Markup and Panel.
-- - Links: renderResources, getContactChannels, renderChannels and buildCitations. Links/Safe is the
--   proof.
-- - Answer: what an answer leaves in the list of messages, the composer and the links. Answer/Handlers
--   has handleAnswerResult, handleAnswerResultFromEl, applyRuleActions and maybeShowHandoff; Answer/Steps
--   is the relation of what happens in a conversation; Paths, Offers and Rules are the proofs. It uses
--   Chat, History and Links.
-- - Markup: the HTML of mount, getFabIconHtml, addHero, renderSuggestions, showToast, renderCodeBlock and
--   buildContactForm as templates, and how a browser reads HTML. Front, Shell, Cards, Icons, Code and
--   Form are the templates; Reading, Bare, Ids, Offered, Labels and Apart are the proofs.
-- - Copy: the copy button of a code block. Copy/Confirmed is the proof.
-- - Network: the banner for a lost network. Network/Told is the proof.
-- - Feedback: handleFeedback, sendFeedback, sendEvent, logHandoff. Feedback/Once is the proof.
-- - Voice: initVoice. Voice/Session is the relation of what happens with the composer's, and the proofs.
-- - Start: initialize on the list of messages. Start/Overlap has it with its two waits and what can
--   happen meanwhile, Start/Locked the timer of the lock; Greeting, Early, Once, Wiped and Locked are
--   the proofs.
-- - Scroll: scrollToBottom and _updateScrollBtn. Scroll/Stick is the proof. Heights are whole pixels.
-- - Skin: the handlers in which the skins static/widget/widget-*.js differ from widget.js, after
--   static/widget/widget-minimal.js. Skin/Agrees and Skin/Unlocked compare them with Chat and Backend.
--   Skin/Calls says what is done with the end of callBackend on both sides; Skin/Ends has the end of
--   streamChat and the answer handlers, Skin/Alike compares them with those of Exchange and Answer.
-- - Modules named Tests hold tests and instances of the theorems.
--
-- State that the source keeps in DOM properties and closure variables is a record here; an
-- operation is a function to the new state. The browser's stores are taken to accept what is
-- stored. Effects that nothing modelled reads (focus, sounds, animation classes) are left out.
-- Native numbers stand for lengths and counters; no machine-width arithmetic occurs. Loops are
-- structural recursions; where a global replacement or a table skips input, a counter of skipped
-- items is an argument. Decimal numbers are printed with fuel one above the number, which is more
-- than its digits. The theorem on the typewriter states the number of frames after which it has
-- ended.
--
-- Not modelled, as glue or constant text: styles and icons outside the modelled HTML, sound and the
-- height of the input; the HTML of the toolbar and of the form's note of success; the timer of a
-- teaser that the start begins, beside the teaser itself; and the backend. What else the skins hold
-- repeats widget.js with other styles, less the lock; static/widget.js is an earlier state of it.
pub mod Answer
pub mod Backend
pub mod Chat
pub mod Config
pub mod Contact
pub mod Copy
pub mod Display
pub mod Escape
pub mod Exchange
pub mod Feedback
pub mod History
pub mod Layout
pub mod Links
pub mod Markdown
pub mod Markup
pub mod Network
pub mod Notice
pub mod Panel
pub mod Prelude
pub mod Scroll
pub mod Skin
pub mod Sse
pub mod Start
pub mod Stream
pub mod Text
pub mod Voice
